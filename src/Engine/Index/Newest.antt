-- ===== src/Engine/Index/Newest.antt =====
-- The newest sequence number wins: what one application shows, and why the order of records, and
-- records that come twice, make no difference.
use gokv.Prelude.{
  ℕ, ◌≡◌, refl, ap, ◌∙◌, sym, ◌==◌, ==_iff, Bool-cases, Bool, true, Option, none, some, List, [],
  ◌∷◌, arith, if◌then◌else◌, leb, All, inl, inr,
}
use gokv.Prelude.Keys.{key_eq, key_eq_iff}
use gokv.Engine.Index.{Entry, Index, Keydir, lookup, apply_recovered, index_apply, IsAscending}
use gokv.Engine.Index.Laws.{lookup-insert, insert-IsAscending}
use mathlib.Core.List.{Permᴰ}
use mathlib.Core.Path.{subst}

-- The newer of what is known of a key and an entry; what is known wins a tie.
abbrev pub newer : Option Entry → Entry → Option Entry
newer none e = some e
newer (some old) e = if leb e.seq old.seq then some old else some e

abbrev pub marked : Entry → Bool → Entry
marked e tomb = record e { tomb = tomb }

-- Both ways to change the index show the newer entry at the key, and every other key as it was.
pub lookup-apply_recovered :
    (m : Index) (k j : List ℕ) (e : Entry) (tomb : Bool)
    → lookup j (apply_recovered m k e tomb)
      ≡ (if key_eq k j then newer (lookup j m) (marked e tomb) else lookup j m)
unfolding apply_recovered
lookup-apply_recovered m k j e tomb =
    ground (arith, lookup-insert k j (marked e tomb) m, key_eq_iff k j)

-- The running store and recovery change the index alike.
pub index-index_apply :
    (d : Keydir) (k : List ℕ) (e : Entry) (tomb : Bool)
    → (index_apply d k e tomb).index ≡ apply_recovered d.index k e tomb
unfolding index_apply apply_recovered
index-index_apply d k e tomb = ground arith

pub apply_recovered-IsAscending :
    (m : Index) (k : List ℕ) (e : Entry) (tomb : Bool)
    → IsAscending m
    → IsAscending (apply_recovered m k e tomb)
unfolding apply_recovered
apply_recovered-IsAscending m k e tomb h = ground (arith, insert-IsAscending k (marked e tomb) m h)

-- A record of the log, as far as the index is concerned.
pub record Change : Type 0 where
  pub key : List ℕ
  pub entry : Entry
  pub tomb : Bool

unfoldable pub apply_all : List Change → Index → Index
apply_all [] m = m
apply_all (c ∷ cs) m = apply_all cs (apply_recovered m c.key c.entry c.tomb)

-- What is known of the key `j` after some changes.
abbrev known : List ℕ → List Change → Option Entry → Option Entry
known j [] o = o
known j (c ∷ cs) o = known j cs (if key_eq c.key j then newer o (marked c.entry c.tomb) else o)

lookup-apply_all :
    (j : List ℕ) (cs : List Change) (m : Index)
    → lookup j (apply_all cs m) ≡ known j cs (lookup j m)
unfolding apply_all
lookup-apply_all j [] m = refl
lookup-apply_all j (c ∷ cs) m =
    lookup-apply_all j cs (apply_recovered m c.key c.entry c.tomb)
    ∙ ap (known j cs) (lookup-apply_recovered m c.key j c.entry c.tomb)

-- A sequence number names one record.
abbrev pub AgreesWith : (ℕ → Change) → Change → Type 0
AgreesWith log c = c ≡ log c.entry.seq

newer_comm :
    (log : ℕ → Change) (c d : Change) (o : Option Entry)
    → AgreesWith log c
    → AgreesWith log d
    → newer (newer o (marked c.entry c.tomb)) (marked d.entry d.tomb)
      ≡ newer (newer o (marked d.entry d.tomb)) (marked c.entry c.tomb)
newer_comm log c d o hc hd = elim (Bool-cases (c.entry.seq == d.entry.seq)) [
  | inl same ↦ let e : c ≡ d = hc ∙ ap log ((==_iff _ _).0 same) ∙ sym hd in rw e refl
  | inr differ ↦ ground arith
]

known_swap :
    (log : ℕ → Change) (j : List ℕ) (c d : Change) (cs : List Change) (o : Option Entry)
    → AgreesWith log c
    → AgreesWith log d
    → known j (c ∷ d ∷ cs) o ≡ known j (d ∷ c ∷ cs) o
known_swap log j c d cs o hc hd = ap (known j cs) (ground (arith, newer_comm log c d o hc hd))

All-permuted :
    (log : ℕ → Change) {cs ds : List Change}
    → Permᴰ cs ds
    → All (AgreesWith log) cs
    → All (AgreesWith log) ds
All-permuted log Permᴰ.nil h = tt
All-permuted log (Permᴰ.cons e p) h = (subst (AgreesWith log) e h.0, All-permuted log p h.1)
All-permuted log (Permᴰ.swap e f) h =
    (subst (AgreesWith log) f h.1.0, (subst (AgreesWith log) e h.0, h.1.1))
All-permuted log (Permᴰ.trans p q) h = All-permuted log q (All-permuted log p h)

known_permuted :
    (log : ℕ → Change) (j : List ℕ) {cs ds : List Change}
    → Permᴰ cs ds
    → All (AgreesWith log) cs
    → (o : Option Entry) → known j cs o ≡ known j ds o
known_permuted log j Permᴰ.nil h o = refl
known_permuted log j (Permᴰ.cons e p) h o = rw e (known_permuted log j p h.1 _)
known_permuted log j (Permᴰ.swap {a} {b} {l} e f) h o =
    rw (← e, ← f) (known_swap log j a b l o h.0 h.1.0)
known_permuted log j (Permᴰ.trans p q) h o =
    known_permuted log j p h o ∙ known_permuted log j q (All-permuted log p h) o

-- Changes of which each is the one that its sequence number names in some log can be applied to
-- an index in any order: every key then has the same entry.
pub lookup-apply_all-any_order :
    (log : ℕ → Change) (cs ds : List Change) (m : Index) (j : List ℕ)
    → Permᴰ cs ds
    → All (AgreesWith log) cs
    → lookup j (apply_all cs m) ≡ lookup j (apply_all ds m)
lookup-apply_all-any_order log cs ds m j p h =
    lookup-apply_all j cs m ∙ known_permuted log j p h (lookup j m) ∙ sym (lookup-apply_all j ds m)

-- Every one of the changes is stale once all have been applied.
abbrev IsStale : List ℕ → Option Entry → Change → Type 0
IsStale j o c = key_eq c.key j ≡ true → newer o (marked c.entry c.tomb) ≡ o

IsStale-step :
    (j : List ℕ) (o : Option Entry) (c d : Change)
    → IsStale j o c
    → IsStale j (if key_eq d.key j then newer o (marked d.entry d.tomb) else o) c
IsStale-step j none c d h e = absurd (cc (h e))
IsStale-step j (some x) c d h e = ground (arith, h e)

IsStale-known :
    (j : List ℕ) (cs : List Change) (o : Option Entry) (c : Change)
    → IsStale j o c
    → IsStale j (known j cs o) c
IsStale-known j [] o c h = h
IsStale-known j (d ∷ cs) o c h = IsStale-known j cs _ c (IsStale-step j o c d h)

IsStale-self :
    (j : List ℕ) (o : Option Entry) (c : Change)
    → IsStale j (if key_eq c.key j then newer o (marked c.entry c.tomb) else o) c
IsStale-self j o c e = ground arith

All-IsStale : (j : List ℕ) (cs : List Change) (o : Option Entry) → All (IsStale j (known j cs o)) cs
All-IsStale j [] o = tt
All-IsStale j (c ∷ cs) o = (IsStale-known j cs _ c (IsStale-self j o c), All-IsStale j cs _)

known_stale :
    (j : List ℕ) (cs : List Change) (o : Option Entry) → All (IsStale j o) cs → known j cs o ≡ o
known_stale j [] o h = refl
known_stale j (c ∷ cs) o h =
    let e : (if key_eq c.key j then newer o (marked c.entry c.tomb) else o) ≡ o =
      ground (arith, h.0) in
    rw e (known_stale j cs o h.1)

-- Changes that are applied to an index a second time leave the entry of every key as it was.
pub lookup-apply_all-again :
    (cs : List Change) (m : Index) (j : List ℕ)
    → lookup j (apply_all cs (apply_all cs m)) ≡ lookup j (apply_all cs m)
lookup-apply_all-again cs m j =
    rw (lookup-apply_all, lookup-apply_all) (known_stale j cs _ (All-IsStale j cs (lookup j m)))

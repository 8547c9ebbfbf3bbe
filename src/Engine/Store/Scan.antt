-- ===== src/Engine/Store/Scan.antt =====
-- `Scan`, `reread` and `ScanSlice` of internal/engine/store.go, other goroutines running beside them.
-- The counter of scans is left out.
pub mod Listed
pub mod Beside
use gokv.Prelude.{
  ℕ, zero, suc, ◌+◌, Bool, true, false, not, ◌&&◌, Option, none, some, List, [], ◌∷◌, ◌++◌, ltb,
  leb, ◌==◌, if◌then◌else◌, length,
}
use gokv.Prelude.Keys.{key_lt}
use gokv.Engine.Record.{Checksum}
use gokv.Engine.Index.{Entry, Index, lookup}
use gokv.Engine.Index.Walk.{walk}
use gokv.Engine.Store.{Store, Outcome, ok, err, Error, key_not_found, file_gone}
use gokv.Engine.Store.Reads.{read_value}

-- What the scan finds of the store when it takes its locks: `looked i` for chunk `i`, `opened k` when
-- it reads the record of the key `k`, and `found k` and `reopened k` in `reread`.
pub record Moments : Type 0 where
  pub looked : ℕ → Store
  pub opened : List ℕ → Store
  pub found : List ℕ → Store
  pub reopened : List ℕ → Store

-- A store that does not change.
abbrev pub still : Store → Moments
still s = record { looked = λ _. s; opened = λ _. s; found = λ _. s; reopened = λ _. s }

-- What the callback has made, how often it was called, and the result of the scan so far.
pub record Scanned {ℓ} (F : Type ℓ) : Type ℓ where
  pub acc : F
  pub sent : ℕ
  pub result : Outcome (Unit {0})

module _ {ℓ} {F : Type ℓ} (fn : List ℕ → List ℕ → F → F × Option Error) where
  -- The value of a reference goes to the callback; a limit of 0 is none.
  abbrev pub deliver : ℕ → List ℕ → List ℕ → Scanned F → Scanned F × Bool
  deliver limit key v st =
      let (acc, failed) = fn key v st.acc in
      elim failed [
        | some x ↦ (record { acc = acc; sent = st.sent; result = err x }, true)
        | none ↦ (
          record { acc = acc; sent = st.sent + 1; result = st.result },
          ltb 0 limit && leb limit (st.sent + 1),
        )
      ]

-- The callback of `ScanSlice`, which appends to `out`.
abbrev pub push_pair :
    List ℕ → List ℕ → List (List ℕ × List ℕ) → List (List ℕ × List ℕ) × Option Error
push_pair key v out = (out ++ ((key, v) ∷ []), none)

module _ ⦃c : Checksum⦄ where
  unfoldable pub reread : Store → Store → List ℕ → Outcome (List ℕ)
  unfolding read_value
  reread found reopened key = elim (lookup key found.keydir.index) [
    | none ↦ err key_not_found
    | some e ↦ if e.tomb then err key_not_found else read_value reopened.files e
  ]

  abbrev pub read_ref : Moments → List ℕ → Entry → Outcome (List ℕ)
  read_ref at key e = elim (read_value (at.opened key).files e) [
    | err file_gone ↦ reread (at.found key) (at.reopened key) key
    | res ↦ res
  ]

  module _ {ℓ} {F : Type ℓ} (fn : List ℕ → List ℕ → F → F × Option Error) where
    -- The body of the loop over `refs`.
    unfoldable pub scan_ref : Moments → ℕ → List ℕ → Entry → Scanned F → Scanned F × Bool
    unfolding reread
    scan_ref at limit key e st = elim (read_ref at key e) [
      | ok v ↦ deliver fn limit key v st
      | err file_gone ↦ (st, false)
      | err key_not_found ↦ (st, false)
      | err x ↦ (record st { result = err x }, true)
    ]

    -- With fuel for the loop over the chunks.
    unfoldable pub scan : ℕ → Moments → List ℕ → List ℕ → ℕ → F → Option (F × Outcome (Unit {0}))
    unfolding walk scan_ref
    scan fuel at start end_key limit acc =
        if not (length end_key == 0) && key_lt end_key start
        then some (acc, ok tt)
        else elim (walk (scan_ref at limit) fuel 0 (λ i. (at.looked i).keydir.index) end_key start
            false (record { acc = acc; sent = 0; result = ok tt })) [
              | none ↦ none
              | some st ↦ some (st.acc, st.result)
            ]

  -- The pairs, in the order of the calls.
  abbrev pub scan_slice :
      ℕ → Moments → List ℕ → List ℕ → ℕ → Option (List (List ℕ × List ℕ) × Outcome (Unit {0}))
  scan_slice fuel at start end_key limit = scan push_pair fuel at start end_key limit []

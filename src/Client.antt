-- ===== src/Client.antt =====
-- client/client.go: the connection of a client and the loop of `call`, which every request goes
-- through. The frames of the requests and of the replies are modelled with the handlers of the node.
pub mod Reaches
use gokv.Prelude.{
  ℕ, zero, suc, ◌+◌, ◌*◌, ◌%◌, Bool, true, false, not, ◌&&◌, ◌||◌, Option, none, some, List, [],
  ◌∷◌, ◌++◌, ltb, ◌==◌, if◌then◌else◌, length,
}
use gokv.Prelude.Keys.{key_eq}
use gokv.Proto.{new_dec, get_bytes}
use gokv.Proto.Wire.{status_redirect, status_error}

-- `current` is the address of the connection, `none` where there is none.
pub record Client : Type 0 where
  pub addrs : List (List ℕ)
  pub max_attempts : ℕ
  pub current : Option (List ℕ)
  pub next : ℕ
  pub closed : Bool

-- What the network answers. `dial i p a` is whether the dial of the address `a`, the `p`-th in attempt
-- `i`, succeeds; `reply i a` is the frame that the exchange of attempt `i` with it reads, `none` for an
-- error.
pub record Net : Type 0 where
  pub dial : ℕ → ℕ → List ℕ → Bool
  pub reply : ℕ → List ℕ → Option (List ℕ)

pub data NewResult : Type 0 where
  client : Client → NewResult
  no_addresses : NewResult

-- `New`, less the timeout.
unfoldable pub new_client : List (List ℕ) → ℕ → NewResult
new_client addrs max_attempts =
    if length addrs == 0
    then no_addresses
    else client (record {
      addrs = addrs;
      max_attempts = if max_attempts == 0 then 2 * length addrs + 2 else max_attempts;
      current = none;
      next = 0;
      closed = false;
    })

abbrev pub drop_locked : Client → Client
drop_locked c = record c { current = none }

abbrev pub close : Client → Client
close c = drop_locked (record c { closed = true })

-- addrs[i]
abbrev pub addr_at : List (List ℕ) → ℕ → List ℕ
addr_at [] i = []
addr_at (a ∷ as') zero = a
addr_at (a ∷ as') (suc i) = addr_at as' i

-- c.addrs[(c.next + i) % len(c.addrs)] for `n` values of `i` from the first.
unfoldable pub cycle : List (List ℕ) → ℕ → ℕ → ℕ → List (List ℕ)
cycle addrs next i zero = []
cycle addrs next i (suc n) = addr_at addrs ((next + i) % length addrs) ∷ cycle addrs next (i + 1) n

unfoldable pub candidates : Client → List ℕ → List (List ℕ)
unfolding cycle
candidates c prefer =
    let all = cycle c.addrs c.next 0 (length c.addrs) in
    if length prefer == 0 then all else prefer ∷ all

-- The loop of `connectLocked`; the Bool is whether it has connected.
unfoldable pub dial_each : Net → ℕ → ℕ → List (List ℕ) → Client → Client × Bool
dial_each net i p [] c = (c, false)
dial_each net i p (a ∷ as') c =
    let later = dial_each net i (p + 1) as' (record c { next = c.next + 1 }) in
    if net.dial i p a then (record c { current = some a }, true) else later

-- Whether the connection that is there will do.
abbrev pub serves : Option (List ℕ) → List ℕ → Bool
serves none prefer = false
serves (some a) prefer = length prefer == 0 || key_eq prefer a

unfoldable pub connect_locked : Net → ℕ → Client → List ℕ → Client × Bool
unfolding candidates dial_each
connect_locked net i c prefer =
    if serves c.current prefer
    then (c, true)
    else dial_each net i 0 (candidates c prefer) (drop_locked c)

-- How a request ends: with the first frame of its reply for `handle`, or with an error.
pub data CallEnd : Type 0 where
  answered : List ℕ → CallEnd
  remote_error : List ℕ → CallEnd
  no_nodes client_closed gave_up : CallEnd

-- What one round makes of the reply: the request is over, or the next round prefers an address.
pub data Round : Type 0 where
  over : CallEnd → Round
  again : List ℕ → Round

-- The address of the connection.
abbrev pub connected_to : Client → List ℕ
connected_to c = elim (c.current) [ some a ↦ a | none ↦ [] ]

-- A round that counts as failed: the connection is dropped, and the next address is the next one.
abbrev pub given_up : Client → Client
given_up c = record (drop_locked c) { next = c.next + 1 }

-- The switch on the status. `poisons` is whether `handle` leaves unread frames behind.
unfoldable pub on_reply : (List ℕ → Bool) → Client → Option (List ℕ) → Client × Round
on_reply poisons c none = (given_up c, again [])
on_reply poisons c (some []) = (given_up c, again [])
on_reply poisons c (some (status ∷ body)) =
    let text = (get_bytes (new_dec body)).0 in
    if status == status_redirect
    then if length text == 0 || key_eq text (connected_to c)
      then (given_up c, again [])
      else (c, again text)
    else if status == status_error
    then (c, over (remote_error text))
    else (if poisons (status ∷ body) then drop_locked c else c, over (answered (status ∷ body)))

unfoldable pub attempt : Net → (List ℕ → Bool) → ℕ → Client → List ℕ → Client × Round
unfolding connect_locked on_reply
attempt net poisons i c prefer =
    let (c', connected) = connect_locked net i c prefer in
    if connected then on_reply poisons c' (net.reply i (connected_to c')) else (c', over no_nodes)

-- The loop of `call` with `n` attempts left.
unfoldable pub attempts : Net → (List ℕ → Bool) → ℕ → ℕ → Client → List ℕ → Client × CallEnd
unfolding attempt
attempts net poisons zero i c prefer = (c, gave_up)
attempts net poisons (suc n) i c prefer =
    let (c', round) = attempt net poisons i c prefer in
    elim round [ over e ↦ (c', e) | again prefer' ↦ attempts net poisons n (i + 1) c' prefer' ]

unfoldable pub call : Net → (List ℕ → Bool) → Client → Client × CallEnd
unfolding attempts
call net poisons c =
    if c.closed then (c, client_closed) else attempts net poisons c.max_attempts 0 c []

-- ===== src/Node.antt =====
-- internal/node: the state of a node, and the replies that all handlers use. Go strings are lists of
-- bytes, times are numbers of nanoseconds that do not go back.
pub mod Election
pub mod Serve
pub mod Range
pub mod CatchUp
pub mod Session
pub mod Streams
use gokv.Prelude.{ℕ, Bool, List, [], ◌∷◌, ◌≤◌}
use gokv.Engine.Store.{Store, Error}
use gokv.Proto.{new_enc, put_bytes}
use gokv.Proto.Wire.{status_error}

-- A role arrives as any byte; only its test against `leader` counts.
abbrev pub Role : Type 0
Role = ℕ

abbrev pub follower : Role
follower = 0

abbrev pub leader : Role
leader = 1

pub record Config : Type 0 where
  pub id : List ℕ
  pub addr : List ℕ
  pub peers : List (List ℕ)
  pub election_timeout : ℕ

pub record Node : Type 0 where
  pub cfg : Config
  pub store : Store
  pub role : Role
  pub leader_addr : List ℕ
  pub epoch : ℕ
  pub last_contact : ℕ
  pub was_leader : Bool
  pub electing : Bool
  pub closing : Bool

-- Why a request is refused: an error of the decoder, of the batch count, or of the store.
pub data Failure : Type 0 where
  malformed : Failure
  batch_count : ℕ → ℕ → Failure
  engine : Error → Failure

-- The texts of the errors, some of which the operating system words.
pub record ErrorTexts : Type 0 where
  pub text : Failure → List ℕ

-- The payload of the reply frame.
abbrev pub write_status : ℕ → List ℕ
write_status s = s ∷ []

abbrev pub write_error : ⦃texts : ErrorTexts⦄ → Failure → List ℕ
write_error ⦃texts⦄ e = put_bytes (new_enc status_error) (texts.text e)

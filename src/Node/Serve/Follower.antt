-- ===== src/Node/Serve/Follower.antt =====
-- Writes that reach a follower.
use gokv.Prelude.{ℕ, ◌≡◌, false, List, ◌==◌, arith}
use gokv.Engine.Record.{Checksum}
use gokv.Engine.Store.{Io}
use gokv.Node.{Node, leader, ErrorTexts}
use gokv.Node.Serve.{serve_put, serve_delete, serve_batch_put}

module _ ⦃c : Checksum⦄ ⦃texts : ErrorTexts⦄ where
  -- Whatever body a PUT, DELETE or BATCHPUT has and whatever the operating system answers, a node
  -- that does not lead is left as it was.
  pub follower_keeps :
      (n : Node) (io : Io) (body : List ℕ)
      → (n.role == leader) ≡ false
      → ((serve_put n io body).0 ≡ n)
        × ((serve_delete n io body).0 ≡ n)
        × ((serve_batch_put n io body).0 ≡ n)
  unfolding serve_put serve_delete serve_batch_put
  follower_keeps n io body h = ground (arith, h)

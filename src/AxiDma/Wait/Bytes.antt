-- ===== src/AxiDma/Wait/Bytes.antt =====
-- `axidma_ring_bytes` against the sum of the status words.
use open_jls_demos.Prelude.{ℕ, zero, suc, ◌+◌, test_bit, u32, arith, IsU32}
use open_jls_demos.World.{Env}
use open_jls_demos.World.Laws.{Lawful}
use open_jls_demos.World.Polls.{Ends, Polls, At-pure, At-if, At-bind, Polls-Ends}
use open_jls_demos.AxiDma.{desc_len, eof_bit, AxidmaRing}
use open_jls_demos.AxiDma.Wait.{ring_bytes_loop, axidma_ring_bytes}
use open_jls_demos.AxiDma.Wait.Outcome.{desc_status-Ends}

module _ {env : Env} {k : ℕ} (law : Lawful env k) where
  ring_bytes-Polls :
      (ring : AxidmaRing) (n i total : ℕ)
      → IsU32 total
      → Polls env 0 1 (λ v _. IsU32 v) (ring_bytes_loop n env ring i total)
  unfolding ring_bytes_loop
  ring_bytes-Polls ring zero i total h = record { at = λ t. At-pure h }
  ring_bytes-Polls ring (suc n) i total h = record {
    at = λ t. At-bind (desc_status-Ends law ring i) (λ st u p.
        At-if (test_bit st eof_bit) (λ _. At-pure (omega arith))
          (λ _. (ring_bytes-Polls ring n (i + 1) (u32 (total + desc_len st)) (omega arith)).at u));
  }

  -- The total is a 32-bit number.
  pub ring_bytes-Ends :
      (ring : AxidmaRing) → Ends env (λ _ v _. IsU32 v) (axidma_ring_bytes env ring)
  unfolding axidma_ring_bytes
  ring_bytes-Ends ring =
      Polls-Ends 0 1 (λ v _. IsU32 v) (omega arith)
        (ring_bytes-Polls ring ring.count 0 0 (omega arith))

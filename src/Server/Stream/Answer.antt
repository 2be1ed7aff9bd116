-- ===== src/Server/Stream/Answer.antt =====
-- What `stream_and_reply` answers, and where it has it from.
use open_jls_demos.Prelude.{
  ℕ, zero, suc, ◌+◌, ◌*◌, ◌≤◌, ◌≡◌, ◌⊎◌, true, false, List, [], length, test_bit, u64, ◌/◌, ◌∷◌,
  some, All, ℤ, pos, negsuc,
}
use open_jls_demos.World.{Env, Trace}
use open_jls_demos.World.Silent.{Grows}
use open_jls_demos.AxiDma.{AxidmaRing, desc_len, eof_bit}
use open_jls_demos.AxiDma.Wait.{axidma_wait_packets}
use open_jls_demos.AxiDma.Ring.{axidma_ring_build}
use open_jls_demos.Server.Request.{stream_slot_bytes}
use open_jls_demos.Proto.{OjlsHdr}
use open_jls_demos.Server.{Hw, region_phys}
use open_jls_demos.Server.Stream.Send.{IsStream}

-- The engine reports no more bytes in a status word than `cap`.
abbrev pub TransferBound : Env → ℕ → Type 0
TransferBound env cap = (t : Trace) (o : ℕ) → desc_len (env.status t o) ≤ cap

-- A stream reply for `count` images, none longer than `cap`, after a run that ended well, with a
-- hardware error, or too late.
abbrev pub IsStreamReply : OjlsHdr → ℕ → ℕ → List ℕ → Type 0
IsStreamReply req count cap msg =
    (status : ℕ) × (lens : List ℕ) × ((status ≡ 0) ⊎ ((status ≡ 8) ⊎ (status ≡ 9)))
    × (length lens ≡ count)
    × All (λ l. l ≤ cap) lens
    × IsStream req status lens msg

-- The status of a stream, by the code of the wait.
abbrev pub outcome_code : ℤ → ℕ
outcome_code (pos zero) = 0
outcome_code (negsuc (suc zero)) = 9
outcome_code rc = 8

-- The lengths of the images from index `i` on, as the status words say that the descriptors from
-- `off` on had between `t` and `u`: the length of each descriptor with an end mark, and 0 from the
-- first one without.
abbrev pub Reported : Env → ℕ → Trace → Trace → ℕ → List ℕ → Type 0
Reported env off t u i [] = Unit
Reported env off t u i (l ∷ ls) =
    (v : Trace) × Grows t v
    × Grows v u
    × (((test_bit (env.status v (off + i * 64)) eof_bit ≡ true)
          × (l ≡ desc_len (env.status v (off + i * 64)))
          × Reported env off v u (i + 1) ls)
        ⊎ ((test_bit (env.status v (off + i * 64)) eof_bit ≡ false) × All (λ l. l ≡ 0) (l ∷ ls)))

-- A message with what it reports, in a run from `t` to `u`: the ring for the images was built; the
-- wait for it returned `rc`, which is the status; then the lengths were read off the ring, and the
-- message was sent.
pub record StreamRun (env : Env) (fuel : ℕ) (hw : Hw) (req : OjlsHdr) (count timeout_ms cap : ℕ)
    (t u : Trace) (msg : List ℕ) : Type 0 where
  pub ring : AxidmaRing
  pub rc : ℤ
  pub lens : List ℕ
  pub building : Trace
  pub built : Trace
  pub waiting : Trace
  pub waited : Trace
  pub collected : Trace
  pub began : Grows t building
  pub build :
      axidma_ring_build hw.desc_buf 0
        (hw.desc_buf.size / 2)
        (region_phys hw.rx)
        (u64 (stream_slot_bytes (req.payload_len / count) * count))
        (stream_slot_bytes (req.payload_len / count))
        false
        building
      ≡ some ((pos 0, some ring), built)
  pub prepared : Grows built waiting
  pub wait : axidma_wait_packets fuel env hw.irq_ok ring timeout_ms waiting ≡ some (rc, waited)
  pub reported : Reported env ring.off waited collected 0 lens
  pub counted : length lens ≡ count
  pub short : All (λ l. l ≤ cap) lens
  pub ended : Grows collected u
  pub reply : IsStream req (outcome_code rc) lens msg

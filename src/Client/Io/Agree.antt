-- ===== src/Client/Io/Agree.antt =====
-- The client's loops over the socket against the server's.
use open_jls_demos.Prelude.{
  ℕ, zero, suc, ◌+◌, ◌-◌, ◌<◌, ◌≡◌, refl, sym, inl, inr, true, false, List, [], ◌∷◌, ◌++◌, Option,
  none, some, length, drop, ltb, ◌==◌, Bool-cases, if◌then◌else◌, ℤ, pos, negsuc,
}
use mathlib.Core.Path.{subst}
use open_jls_demos.World.{
  ReadResult, got, eof, read_eintr, read_error, WriteResult, wrote, write_eintr, write_error, Env,
  Trace, received, sent,
}
use open_jls_demos.World.Returns.{Returns}
use open_jls_demos.World.Laws.{Lawful}
use open_jls_demos.Server.Io.{
  on_read as server_on_read, recv_loop as server_recv_loop, recv_full as server_recv_full,
  on_write as server_on_write, send_full as server_send_full,
}
use open_jls_demos.Server.Io.Receive.{Received, recv_full_total}
use open_jls_demos.Server.Io.Send.{Sent, send_full_total}
use open_jls_demos.Client.Io.{on_read, recv_loop, recv_full, on_write, send_full}

-- The client has one code for every failure.
abbrev pub client_code : ℤ → ℤ
client_code (pos zero) = pos 0
client_code (pos (suc n)) = negsuc 0
client_code (negsuc n) = negsuc 0

abbrev pub client_result : Option ((ℤ × List ℕ) × Trace) → Option ((ℤ × List ℕ) × Trace)
client_result none = none
client_result (some ((rc, buf), t)) = some ((client_code rc, buf), t)

recv_loop-agrees :
    (fuel : ℕ) (env : Env) (len : ℕ) (buf : List ℕ) (t : Trace)
    → recv_loop fuel env len buf t ≡ client_result (server_recv_loop fuel env len buf t)
unfolding recv_loop server_recv_loop server_on_read on_read
recv_loop-agrees zero env len buf t = refl
recv_loop-agrees (suc fuel) env len buf t = elim (Bool-cases (ltb (length buf) len)) [
  | inl more ↦ rw more (go (recv_loop-agrees fuel env len) (env.read t (len - length buf)) _)
  | inr full ↦ rw full refl
]
  where
    go :
        ((b : List ℕ) (u : Trace)
          → recv_loop fuel env len b u ≡ client_result (server_recv_loop fuel env len b u))
        → (r : ReadResult) (u : Trace)
        → on_read (recv_loop fuel env len) buf r u
          ≡ client_result (server_on_read (server_recv_loop fuel env len) buf r u)
    go ih (got bs) u = ih (buf ++ bs) u
    go ih eof u =
        elim (length buf == 0)
          as (λ b.
            some ((negsuc 0, buf), u)
            ≡ client_result (some ((if b then pos 1 else negsuc 0, buf), u))) [
              | true ↦ refl
              | false ↦ refl
            ]
    go ih read_eintr u = ih buf u
    go ih read_error u = refl

-- The client's `recv_full` is the server's, with one code for every failure.
pub recv_full-agrees :
    (fuel : ℕ) (env : Env) (len : ℕ) (t : Trace)
    → recv_full fuel env len t ≡ client_result (server_recv_full fuel env len t)
unfolding recv_full server_recv_full
recv_full-agrees fuel env len t = recv_loop-agrees fuel env len [] t

pub send_full-agrees :
    (fuel : ℕ) (env : Env) (bs : List ℕ) (t : Trace)
    → send_full fuel env bs t ≡ server_send_full fuel env bs t
unfolding send_full server_send_full server_on_write on_write
send_full-agrees zero env bs t = refl
send_full-agrees (suc fuel) env [] t = refl
send_full-agrees (suc fuel) env (b ∷ bs) t = go (send_full-agrees fuel env) (env.write t (b ∷ bs)) _
  where
    go :
        ((b : List ℕ) (u : Trace) → send_full fuel env b u ≡ server_send_full fuel env b u)
        → (r : WriteResult) (u : Trace)
        → on_write (send_full fuel env) (b ∷ bs) r u
          ≡ server_on_write (server_send_full fuel env) (b ∷ bs) r u
    go ih (wrote n) u = ih (drop n (b ∷ bs)) u
    go ih write_eintr u = ih (b ∷ bs) u
    go ih write_error u = refl

module _ {env : Env} {k : ℕ} (law : Lawful env k) where
  pub client_send-Sent :
      (fuel : ℕ) (bs : List ℕ) (t : Trace)
      → length bs + k < fuel
      → Returns (send_full fuel env bs t) (Sent (received t) (sent t) bs)
  client_send-Sent fuel bs t f =
      subst (λ r. Returns r (Sent (received t) (sent t) bs)) (sym (send_full-agrees fuel env bs t))
        (send_full_total env k fuel bs t law.writes law.signals f)

  failed_Received :
      (before out : List ℕ) (len : ℕ) (rc : ℤ) (buf : List ℕ) (t : Trace)
      → Received env before out len rc buf t
      → Received env before out len (negsuc 0) buf t
  failed_Received before out len rc buf t r = record {
    taken = r.taken;
    silent = r.silent;
    bytes = r.bytes;
    source = r.source;
    at_most = r.at_most;
    all_of_it = λ e. cc;
    orderly = λ e. cc;
    codes = inr (inr refl);
  }

  client_Received :
      (before out : List ℕ) (len : ℕ) (rc : ℤ) (buf : List ℕ) (t : Trace)
      → Received env before out len rc buf t
      → Received env before out len (client_code rc) buf t
  client_Received before out len (pos zero) buf t r = r
  client_Received before out len (pos (suc n)) buf t r = failed_Received before out len _ buf t r
  client_Received before out len (negsuc n) buf t r = failed_Received before out len _ buf t r

  client_Returns :
      (len : ℕ) (before out : List ℕ) (r : Option ((ℤ × List ℕ) × Trace))
      → Returns r (λ x u. Received env before out len x.0 x.1 u)
      → Returns (client_result r) (λ x u. Received env before out len x.0 x.1 u)
  client_Returns len before out none h = h
  client_Returns len before out (some ((rc, buf), u)) h = client_Received before out len rc buf u h

  pub client_recv-Received :
      (fuel len : ℕ) (t : Trace)
      → len + k < fuel
      → Returns (recv_full fuel env len t) (λ x u. Received env (received t) (sent t) len x.0 x.1 u)
  client_recv-Received fuel len t f =
      subst (λ r. Returns r (λ x u. Received env (received t) (sent t) len x.0 x.1 u))
        (sym (recv_full-agrees fuel env len t))
        (client_Returns len (received t) (sent t) (server_recv_full fuel env len t)
          (recv_full_total env k fuel len t law.reads law.signals f))

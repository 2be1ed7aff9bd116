-- ===== src/Server/Io/Length.antt =====
-- Software/src/ojls_server.c: `recv_full` takes no more than it was asked for.
use open_jls_demos.Prelude.{
  ℕ, zero, suc, ◌-◌, ◌≤◌, ◌≡◌, refl, Bool-cases, inl, inr, List, [], ◌∷◌, ◌++◌, length,
  length-append, ltb, ℤ, arith,
}
use open_jls_demos.World.{
  ReadResult, got, eof, read_eintr, read_error, sock_read, Env, Trace, ReadLaw,
}
use open_jls_demos.World.System.{sys_read}
use open_jls_demos.World.Keeps.{Upon}
use open_jls_demos.Server.Io.{on_read, recv_loop, recv_full}

-- What has been read fits the length.
abbrev pub Fits : ℕ → ℤ × List ℕ → Trace → Type 0
Fits len r t = length r.1 ≤ len

module _ (env : Env) (law : ReadLaw env) (len : ℕ) where
  recv_loop-Fits :
      (fuel : ℕ) (buf : List ℕ) (t : Trace)
      → length buf ≤ len
      → Upon (recv_loop fuel env len buf t) (Fits len)
  unfolding recv_loop sys_read on_read
  recv_loop-Fits zero buf t f = tt
  recv_loop-Fits (suc fuel) buf t f = elim (Bool-cases (ltb (length buf) len)) [
    | inl more ↦ rw more (after (recv_loop-Fits fuel) (env.read t (len - length buf)) refl)
    | inr done ↦ rw done f
  ]
    where
      after :
          ((buf : List ℕ) (u : Trace)
            → length buf ≤ len
            → Upon (recv_loop fuel env len buf u) (Fits len))
          → (r : ReadResult) → env.read t (len - length buf) ≡ r
          → Upon
              (on_read (recv_loop fuel env len) buf r (sock_read (len - length buf) r ∷ t))
              (Fits len)
      after ih (got bs) e =
          ih (buf ++ bs) (sock_read (len - length buf) (got bs) ∷ t)
            (omega (arith, f, length-append buf bs, (law t (len - length buf) bs e).1))
      after ih eof e = f
      after ih read_eintr e = ih buf (sock_read (len - length buf) read_eintr ∷ t) f
      after ih read_error e = f

  pub recv_full-Fits : (fuel : ℕ) (t : Trace) → Upon (recv_full fuel env len t) (Fits len)
  unfolding recv_full
  recv_full-Fits fuel t = recv_loop-Fits fuel [] t (omega arith)

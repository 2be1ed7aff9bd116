-- ===== src/Server/Io/Receive.antt =====
-- What `recv_full` takes from the socket, and what `drain` discards.
use open_jls_demos.Prelude.{
  ℕ, zero, suc, ◌+◌, ◌-◌, ◌≤◌, ◌<◌, ◌≡◌, ◌⊎◌, refl, sym, ltb_iff, ==_iff, List, [], ◌∷◌, ◌++◌,
  length, append_assoc, append-nil, length-append, All, All-append, IsU8, Bool-cases, inl, inr,
  arith, ltb, ◌==◌, ℤ, pos, negsuc,
}
use open_jls_demos.World.{
  ReadResult, got, eof, read_eintr, read_error, sock_read, Env, Trace, received, sent, interrupts,
  ReadLaw, SignalBound,
}
use open_jls_demos.World.Returns.{Returns, Returns-if}
use open_jls_demos.Server.Io.{on_read, recv_loop, recv_full}

-- Nothing is in the buffer, or the last of it is what a read brought.
abbrev pub FromPeer : Env → List ℕ → Trace → Type 0
FromPeer env buf t =
    (length buf ≡ 0)
    ⊎ ((u : Trace) × (n : ℕ) × (bs : List ℕ) × (env.read u n ≡ got bs)
        × (received u ++ bs ≡ received t))

-- What a call for `len` bytes leaves, where `before` had been received and `out` sent.
pub record Received (env : Env) (before out : List ℕ) (len : ℕ) (rc : ℤ) (buf : List ℕ) (t : Trace)
    : Type 0 where
  pub taken : received t ≡ before ++ buf
  pub silent : sent t ≡ out
  pub bytes : All IsU8 buf
  pub source : FromPeer env buf t
  pub at_most : length buf ≤ len
  pub all_of_it : rc ≡ pos 0 → length buf ≡ len
  pub orderly : rc ≡ pos 1 → length buf ≡ 0
  pub codes : (rc ≡ pos 0) ⊎ ((rc ≡ pos 1) ⊎ (rc ≡ negsuc 0))

module _ (env : Env) (k len : ℕ) (before out : List ℕ) (rl : ReadLaw env)
    (sb : SignalBound env k) where
  abbrev Post : ℤ × List ℕ → Trace → Type 0
  Post (rc, buf) t = Received env before out len rc buf t

  recv_loop-Post :
      (fuel : ℕ) (buf : List ℕ) (t : Trace)
      → received t ≡ before ++ buf
      → sent t ≡ out
      → All IsU8 buf
      → FromPeer env buf t
      → length buf ≤ len
      → (len - length buf) + (k - interrupts t) < fuel
      → Returns (recv_loop fuel env len buf t) Post
  unfolding recv_loop
  recv_loop-Post zero buf t e s a p h f = absurd (omega arith)
  recv_loop-Post (suc fuel) buf t e s a p h f =
      Returns-if (ltb (length buf) len) _ _ t Post
        (λ more.
          step (recv_loop-Post fuel) ((ltb_iff _ _).0 more) (env.read t (len - length buf)) refl)
        (λ full. record {
          taken = e;
          silent = s;
          bytes = a;
          source = p;
          at_most = h;
          all_of_it = λ _. ground arith;
          orderly = λ c. cc;
          codes = inl refl;
        })
    where
      want : ℕ
      want = len - length buf

      stop :
          (rc : ℤ) (r : ReadResult) (t' : Trace)
          → received t' ≡ before ++ buf
          → sent t' ≡ out
          → FromPeer env buf t'
          → rc ≡ negsuc 0
          → Received env before out len rc buf t'
      stop rc r t' e' s' p' c = record {
        taken = e';
        silent = s';
        bytes = a;
        source = p';
        at_most = h;
        all_of_it = λ x. cc;
        orderly = λ x. cc;
        codes = inr (inr c);
      }

      step :
          ((b : List ℕ) (u : Trace)
            → received u ≡ before ++ b
            → sent u ≡ out
            → All IsU8 b
            → FromPeer env b u
            → length b ≤ len
            → (len - length b) + (k - interrupts u) < fuel
            → Returns (recv_loop fuel env len b u) Post)
          → length buf < len
          → (r : ReadResult) → env.read t want ≡ r
          → Returns (on_read (recv_loop fuel env len) buf r (sock_read want r ∷ t)) Post
      step ih lt (got bs) q =
          let law = rl t want bs q in
          ih (buf ++ bs) _ (rw e (append_assoc before buf bs)) s (All-append IsU8 buf bs a law.2)
            (inr (t, want, bs, q, refl)) (rw length-append (omega (arith, law.0, law.1)))
            (rw length-append (omega (arith, law.0, law.1)))
      step ih lt eof q = elim (Bool-cases (length buf == 0)) [
        | inl none_yet ↦ rw none_yet (record {
          taken = e;
          silent = s;
          bytes = a;
          source = p;
          at_most = h;
          all_of_it = λ x. cc;
          orderly = λ x. (==_iff _ _).0 none_yet;
          codes = inr (inl refl);
        })
        | inr some_read ↦ rw some_read (stop (negsuc 0) eof _ e s p refl)
      ]
      step ih lt read_eintr q = ih buf _ e s a p h (omega (arith, sb.of_read t want q))
      step ih lt read_error q = stop (negsuc 0) read_error _ e s p refl

-- Under the law of `read` and a bound on interrupted calls, with fuel above the length and that
-- bound, `recv_full` returns 0, 1 or -1; what it hands over is what it took from the socket: at
-- most `len` elements, each of them a byte, exactly `len` for 0 and none for 1. It sends nothing.
pub recv_full_total :
    (env : Env) (k fuel len : ℕ) (t : Trace)
    → ReadLaw env
    → SignalBound env k
    → len + k < fuel
    → Returns (recv_full fuel env len t) (λ r t'. Received env (received t) (sent t) len r.0 r.1 t')
unfolding recv_full
recv_full_total env k fuel len t rl sb f =
    recv_loop-Post env k len (received t) (sent t) rl sb fuel [] t (sym (append-nil (received t)))
      refl tt (inl refl) (omega arith) (omega arith)

-- ===== src/Server/Io/Send.antt =====
-- What `send_full` puts on the socket.
use open_jls_demos.Prelude.{
  ℕ, zero, suc, ◌+◌, ◌-◌, ◌<◌, ◌≡◌, ◌⊎◌, refl, sym, ap, ◌∙◌, List, [], ◌∷◌, ◌++◌, length,
  append_assoc, append-nil, length-drop, take, drop, take-append-drop, inl, inr, arith, ℤ, pos,
  negsuc,
}
use mathlib.Core.Path.{subst}
use open_jls_demos.World.{
  WriteResult, wrote, write_eintr, write_error, sock_write, Env, Trace, received, sent, interrupts,
  WriteLaw, SignalBound,
}
use open_jls_demos.World.Returns.{Returns, Returns-map}
use open_jls_demos.Server.Io.{on_write, send_full}

-- `bs` was to be sent; `done` of it went out and `left` did not.
pub record Sent (before out bs : List ℕ) (rc : ℤ) (t : Trace) : Type 0 where
  pub done : List ℕ
  pub left : List ℕ
  pub splits : bs ≡ done ++ left
  pub went_out : sent t ≡ out ++ done
  pub deaf : received t ≡ before
  pub all_of_it : rc ≡ pos 0 → sent t ≡ out ++ bs
  pub codes : (rc ≡ pos 0) ⊎ (rc ≡ negsuc 0)

-- With `done` sent already, the rest of the bytes finishes the call.
Sent-more :
    (before out done bs : List ℕ) (rc : ℤ) (t : Trace)
    → Sent before (out ++ done) bs rc t
    → Sent before out (done ++ bs) rc t
Sent-more before out done bs rc t s = record {
  done = done ++ s.done;
  left = s.left;
  splits = ap (◌++◌ done) s.splits ∙ sym (append_assoc done s.done s.left);
  went_out = s.went_out ∙ append_assoc out done s.done;
  deaf = s.deaf;
  all_of_it = λ e. s.all_of_it e ∙ append_assoc out done bs;
  codes = s.codes;
}

module _ (env : Env) (k : ℕ) (before : List ℕ) (wl : WriteLaw env) (sb : SignalBound env k) where
  send_full-Sent :
      (fuel : ℕ) (out bs : List ℕ) (t : Trace)
      → received t ≡ before
      → sent t ≡ out
      → length bs + (k - interrupts t) < fuel
      → Returns (send_full fuel env bs t) (Sent before out bs)
  unfolding send_full
  send_full-Sent zero out bs t e s f = absurd (omega arith)
  send_full-Sent (suc fuel) out [] t e s f = record {
    done = [];
    left = [];
    splits = refl;
    went_out = s ∙ sym (append-nil out);
    deaf = e;
    all_of_it = λ _. s ∙ sym (append-nil out);
    codes = inl refl;
  }
  send_full-Sent (suc fuel) out (b ∷ bs) t e s f =
      step (send_full-Sent fuel) (env.write t (b ∷ bs)) refl
    where
      all : List ℕ
      all = b ∷ bs

      step :
          ((out' bs' : List ℕ) (u : Trace)
            → received u ≡ before
            → sent u ≡ out'
            → length bs' + (k - interrupts u) < fuel
            → Returns (send_full fuel env bs' u) (Sent before out' bs'))
          → (r : WriteResult) → env.write t all ≡ r
          → Returns
              (on_write (send_full fuel env) all r (sock_write all r ∷ t))
              (Sent before out all)
      step ih (wrote n) q =
          let law = wl t all n q in
          subst
            (λ x.
              Returns (send_full fuel env (drop n all) (sock_write all (wrote n) ∷ t))
                (Sent before out x))
            (take-append-drop n all)
            (Returns-map _ _ _
              (ih (out ++ take n all) (drop n all) _ e (ap (λ x. x ++ take n all) s)
                (rw length-drop (omega (arith, law))))
              (Sent-more before out (take n all) (drop n all)))
      step ih write_eintr q = ih out all _ e s (omega (arith, sb.of_write t all q))
      step ih write_error q = record {
        done = [];
        left = all;
        splits = refl;
        went_out = s ∙ sym (append-nil out);
        deaf = e;
        all_of_it = λ c. cc;
        codes = inr refl;
      }

-- Under the law of `write` and a bound on interrupted calls, with fuel above the number of bytes
-- and that bound, `send_full` returns 0 or -1; what it has put on the socket is a prefix of the
-- bytes, all of them for 0, and it reads nothing.
pub send_full_total :
    (env : Env) (k fuel : ℕ) (bs : List ℕ) (t : Trace)
    → WriteLaw env
    → SignalBound env k
    → length bs + k < fuel
    → Returns (send_full fuel env bs t) (Sent (received t) (sent t) bs)
send_full_total env k fuel bs t wl sb f =
    send_full-Sent env k (received t) wl sb fuel (sent t) bs t refl refl (omega arith)

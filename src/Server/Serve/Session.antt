-- ===== src/Server/Serve/Session.antt =====
-- A whole connection: `serve_connection` answers one request after the other until the peer closes.
use open_jls_demos.Prelude.{
  ℕ, zero, suc, inl, inr, ◌+◌, ◌-◌, ◌^◌, ◌≤◌, ◌<◌, ◌≡◌, ◌⊎◌, sym, ap, ◌∙◌, Bool, List, [], ◌∷◌,
  ◌++◌, append_assoc, append-nil, length, length-append, All, ℤ, pos, negsuc, arith,
}
use mathlib.Core.Path.{subst}
use open_jls_demos.World.{Env, M, Trace, got, received, sent}
use open_jls_demos.World.Returns.{Returns, Returns-bind, Returns-map}
use open_jls_demos.World.Laws.{Lawful, Enough}
use open_jls_demos.Server.{Hw}
use open_jls_demos.Server.Stream.Answer.{TransferBound}
use open_jls_demos.Server.Serve.{
  Round, stop, again, serve_round, serve_next, serve_loop, serve_connection,
}
use open_jls_demos.Server.Serve.Exchange.{Exchange, HeaderRead, RoundEnd}
use open_jls_demos.Server.Serve.Rounds.{serve_round-Ends}

-- The peer sends no more than `total` bytes.
abbrev pub FinitePeer : Env → ℕ → Type 0
FinitePeer env total =
    (t : Trace) (n : ℕ) (bs : List ℕ)
    → env.read t n ≡ got bs
    → length (received t) + length bs ≤ total

-- The bytes of the requests, and of the replies, in the order of the exchanges.
abbrev pub requests : List (List ℕ × List ℕ) → List ℕ
requests [] = []
requests ((q, r) ∷ es) = q ++ requests es

abbrev pub replies : List (List ℕ × List ℕ) → List ℕ
replies [] = []
replies ((q, r) ∷ es) = r ++ replies es

-- An orderly end: whole exchanges, and nothing else, went over the connection.
abbrev pub ConnectionEnd : Bool → Hw → ℕ → List ℕ → List ℕ → ℤ → Trace → Type 0
ConnectionEnd loopback hw cap before out rc t =
    ((es : List (List ℕ × List ℕ)) × (rc ≡ pos 0)
      × (received t ≡ before ++ requests es)
      × (sent t ≡ out ++ replies es)
      × All (λ e. Exchange loopback hw cap e.0 e.1) es)
    ⊎ (rc ≡ negsuc 0)

ConnectionEnd-more :
    {loopback : Bool} {hw : Hw} {cap : ℕ} (before out request reply : List ℕ)
    → Exchange loopback hw cap request reply
    → (rc : ℤ) (t : Trace) → ConnectionEnd loopback hw cap (before ++ request) (out ++ reply) rc t
    → ConnectionEnd loopback hw cap before out rc t
ConnectionEnd-more before out request reply e rc t (inl (es, z, x, y, a)) = inl (
  (request, reply) ∷ es,
  z,
  x ∙ append_assoc before request (requests es),
  y ∙ append_assoc out reply (replies es),
  (e, a),
)
ConnectionEnd-more before out request reply e rc t (inr n) = inr n

module _ {env : Env} {k : ℕ} (law : Lawful env k) (cap : ℕ) (bound : TransferBound env cap)
    (short : cap < 2 ^ 32) (loopback : Bool) (hw : Hw) (timeout_ms fuel : ℕ)
    (enough : Enough k timeout_ms fuel) (total : ℕ) (finite : FinitePeer env total) where
  -- A header was read, so that less is to come.
  header_fits : (before : List ℕ) → HeaderRead env before → length before + 20 ≤ total
  header_fits before (u, n, bs, q, e) = omega (arith, e, finite u n bs q)

  -- What follows a round.
  next_round :
      (t : Trace) (rounds : ℕ) (next : ℕ → M ℤ)
      → total - length (received t) < suc rounds
      → ((c : ℕ) (u : Trace)
          → total - length (received u) < rounds
          → Returns (next c u) (ConnectionEnd loopback hw cap (received u) (sent u)))
      → (r : Round) (u : Trace) → RoundEnd env loopback hw cap (received t) (sent t) r u
      → Returns (serve_next next r u) (ConnectionEnd loopback hw cap (received t) (sent t))
  unfolding serve_next
  next_round t rounds next f ih (stop rc) u (inl (z, x, y)) =
      inl ([], z, x ∙ sym (append-nil (received t)), y ∙ sym (append-nil (sent t)), tt)
  next_round t rounds next f ih (stop rc) u (inr n) = inr n
  next_round t rounds next f ih (again c) u (q, r, x, y, e, h) =
      let taken : length (received u) ≡ length (received t) + (20 + length e.payload) =
        (ap length x
          ∙ length-append (received t) q
          ∙ ap (λ n. length (received t) + n)
              (ap length e.request_parts
                ∙ length-append e.raw e.payload
                ∙ ap (λ n. n + length e.payload) e.raw_length)) in
      Returns-map (next c u) (ConnectionEnd loopback hw cap (received u) (sent u))
        (ConnectionEnd loopback hw cap (received t) (sent t))
        (ih c u (omega (arith, taken, header_fits (received t) h)))
        (λ rc v d. ConnectionEnd-more (received t) (sent t) q r e rc v (
          subst (λ b. ConnectionEnd loopback hw cap b (sent t ++ r) rc v) x
            (subst (λ o. ConnectionEnd loopback hw cap (received u) o rc v) y d)))

  serve_loop-Ends :
      (rounds loop_cap : ℕ) (t : Trace)
      → total - length (received t) < rounds
      → Returns
          (serve_loop rounds fuel env loopback hw timeout_ms loop_cap t)
          (ConnectionEnd loopback hw cap (received t) (sent t))
  unfolding serve_loop
  serve_loop-Ends zero loop_cap t f = absurd (omega arith)
  serve_loop-Ends (suc rounds) loop_cap t f =
      Returns-bind (serve_round fuel env loopback hw timeout_ms loop_cap)
        (serve_next (serve_loop rounds fuel env loopback hw timeout_ms)) t
        (RoundEnd env loopback hw cap (received t) (sent t))
        (ConnectionEnd loopback hw cap (received t) (sent t))
        (serve_round-Ends law cap bound short hw timeout_ms fuel enough loopback loop_cap t)
        (next_round t rounds (serve_loop rounds fuel env loopback hw timeout_ms) f
          (serve_loop-Ends rounds))

-- Under the laws and with enough fuel for each request, if the peer sends at most `total` bytes
-- and `rounds` is above those still to come, `serve_connection` ends, in loopback mode and with
-- the hardware. If it returns 0, what was received is a sequence of whole requests with a good
-- magic, each a header of 20 bytes and the payload that it announces, and what was sent is one
-- reply to each, in the same order: an error header with the status of the failed check for a
-- rejected request; for an accepted one the echo of the payload in loopback mode, and otherwise an
-- error header or the reply that belongs to its type. The only other code is -1.
pub serve_connection_total :
    {env : Env} {k : ℕ} (cap : ℕ) (loopback : Bool) (hw : Hw) (timeout_ms fuel total rounds : ℕ)
    (t : Trace)
    → Lawful env k
    → TransferBound env cap
    → cap < 2 ^ 32
    → Enough k timeout_ms fuel
    → FinitePeer env total
    → total - length (received t) < rounds
    → Returns
        (serve_connection rounds fuel env loopback hw timeout_ms t)
        (ConnectionEnd loopback hw cap (received t) (sent t))
unfolding serve_connection
serve_connection_total cap loopback hw timeout_ms fuel total rounds t law bound short enough finite
      f =
    serve_loop-Ends law cap bound short loopback hw timeout_ms fuel enough total finite rounds 0 t f

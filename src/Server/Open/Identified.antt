-- ===== src/Server/Open/Identified.antt =====
-- What `hw_open` establishes, and what `hw_close` gives back.
use open_jls_demos.Prelude.{
  ℕ, ◌^◌, ◌≡◌, ◌<◌, refl, List, [], ◌++◌, Option, none, some, ◌!=◌, codes, arith,
}
use open_jls_demos.World.{Env, M, Trace, pure, ◌>>◌, regs, tx, rx, desc}
use open_jls_demos.World.Returns.{Returns, Returns-bind, Returns-map, Returns-if}
use open_jls_demos.World.Laws.{Lawful}
use open_jls_demos.World.Handles.{
  Handle as SystemHandle, Balance, Balance-refl, Balance-trans, occurrences-append,
}
use open_jls_demos.World.Tidy.{Gains}
use open_jls_demos.Uio.{uio_rd, id_value, caps_bitness, maxdim_width, maxdim_height}
use open_jls_demos.Uio.Open.{Uio, uio_open}
use open_jls_demos.Udmabuf.Open.{Handle, udmabuf_open}
use open_jls_demos.Uio.Open.Holds.{uio_handles, of_option, uio_open-Gains, uio_close-Loses}
use open_jls_demos.Udmabuf.Open.Holds.{udmabuf_handles, udmabuf_open-Gains, udmabuf_close-Loses}
use open_jls_demos.AxiDma.Open.{Axidma, axidma_open}
use open_jls_demos.AxiDma.Open.Holds.{axidma_handles, axidma_open-Gains, axidma_close-Loses}
use open_jls_demos.Server.Open.{
  Options, OpenHw, buffer, whole, or_name, or_fails, open_buffers, open_rest, identify, hw_open,
  hw_close,
}

-- The devices of the handle, in the order in which they were opened.
abbrev pub open_handles : OpenHw → List SystemHandle
open_handles o =
    ((((uio_handles o.regs_dev ++ uio_handles o.gate_dev) ++ axidma_handles o.dma_dev)
        ++ udmabuf_handles o.tx_dev)
      ++ udmabuf_handles o.rx_dev)
    ++ udmabuf_handles o.desc_dev

-- What an opening under the name found, at some moment.
abbrev pub FoundBy : {A : Type 0} → (List ℕ → M (Option A)) → List ℕ → A → Type 0
FoundBy open_it name a = (v : Trace) × (w : Trace) × (open_it name v ≡ some (some a, w))

-- The name on the command line, or the default.
abbrev pub given : Option (List ℕ) → List ℕ → List ℕ
given none default = default
given (some name) default = name

-- Each device is the one that was found under its own name.
pub record NamedRight (fuel : ℕ) (env : Env) (opt : Options) (o : OpenHw) : Type 0 where
  pub regs_found : FoundBy (uio_open env) opt.regs_name o.regs_dev
  pub gate_found : FoundBy (uio_open env) opt.gate_name o.gate_dev
  pub dma_found : FoundBy (axidma_open fuel env) opt.dma_name o.dma_dev
  pub tx_found : FoundBy (udmabuf_open env) (given opt.tx_buf (codes "udmabuf-ojls-tx")) o.tx_dev
  pub rx_found : FoundBy (udmabuf_open env) (given opt.rx_buf (codes "udmabuf-ojls-rx")) o.rx_dev
  pub desc_found :
      FoundBy (udmabuf_open env) (given opt.desc_buf (codes "udmabuf-ojls-desc")) o.desc_dev

-- The register bank answered with the right identification, the limits of the core are those of
-- its registers and in range, and the regions are the whole buffers.
pub record Identified (env : Env) (o : OpenHw) : Type 0 where
  pub identification : (v : Trace) × (env.reg v regs 0 ≡ id_value)
  pub capabilities : (v : Trace) × (o.hw.bitness ≡ caps_bitness (env.reg v regs 2))
  pub limits :
      (v : Trace) × (o.hw.max_width ≡ maxdim_width (env.reg v regs 3))
      × (o.hw.max_height ≡ maxdim_height (env.reg v regs 3))
  pub ranges : (o.hw.bitness < 2 ^ 8) × (o.hw.max_width < 2 ^ 16) × (o.hw.max_height < 2 ^ 16)
  pub tx_whole : o.hw.tx ≡ whole (buffer tx o.tx_dev)
  pub rx_whole : o.hw.rx ≡ whole (buffer rx o.rx_dev)
  pub desc_whole : o.hw.desc_buf ≡ buffer desc o.desc_dev

abbrev pub HwOpened : ℕ → Env → Options → Trace → Option OpenHw → Trace → Type 0
HwOpened fuel env opt s none u = Unit
HwOpened fuel env opt s (some o) u =
    Identified env o × NamedRight fuel env opt o × Balance (open_handles o) [] s u

-- One more device was opened, or the opening failed.
open_more :
    {A B : Type 0} {f : A → List SystemHandle} {m : M (Option A)} (k : A → M (Option B))
    (Q : Option B → Trace → Type 0) (s t : Trace) {hs : List SystemHandle}
    → Gains (of_option f) m
    → Balance hs [] s t
    → ((u : Trace) → Q none u)
    → ((a : A) (u : Trace)
        → m t ≡ some (some a, u)
        → Balance (hs ++ f a) [] s u
        → Returns (k a u) Q)
    → Returns (or_fails m k t) Q
open_more {A} {B} {f} {m} k Q s t {hs} h b g next = go (m t) refl (h.ends t)
  where
    go :
        (r : Option (Option A × Trace))
        → m t ≡ r
        → Returns r (λ x u. Balance (of_option f x) [] t u)
        → Returns
            (elim r as (λ _. Option (Option B × Trace)) [
              | none ↦ none
              | some (x, u) ↦ (elim x as (λ _. M (Option B)) [ none ↦ pure none | some a ↦ k a ]) u
            ])
            Q
    go none e c = c
    go (some (none, u)) e c = g u
    go (some (some a, u)) e c = next a u e (Balance-trans b c)

module _ {env : Env} {k : ℕ} (law : Lawful env k) (fuel : ℕ) (enough : 102_000_000 < fuel)
    (opt : Options) where
  -- The name that was opened is the one given.
  named :
      (name : Option (List ℕ)) (default : List ℕ) (t : Trace) {r : Option (Option Handle × Trace)}
      → udmabuf_open env (or_name name default) t ≡ r
      → udmabuf_open env (given name default) t ≡ r
  named none default t e = e
  named (some n) default t e = e

  buffers_end :
      (regs_dev gate_dev : Uio) (dma_dev : Axidma) (s t v w x : Trace)
      → FoundBy (uio_open env) opt.regs_name regs_dev
      → FoundBy (uio_open env) opt.gate_name gate_dev
      → FoundBy (axidma_open fuel env) opt.dma_name dma_dev
      → env.reg v regs 0 ≡ id_value
      → Balance ((uio_handles regs_dev ++ uio_handles gate_dev) ++ axidma_handles dma_dev) [] s t
      → Returns
          (open_buffers env opt regs_dev gate_dev (env.reg w regs 2) (env.reg x regs 3) dma_dev t)
          (HwOpened fuel env opt s)
  unfolding open_buffers
  buffers_end regs_dev gate_dev dma_dev s t v w x f g h e b =
      open_more _ (HwOpened fuel env opt s) s t (udmabuf_open-Gains env _) b (λ u. tt)
        (λ tx_dev u tx_is c.
          open_more _ (HwOpened fuel env opt s) s u (udmabuf_open-Gains env _) c (λ u. tt)
            (λ rx_dev u' rx_is d.
              open_more _ (HwOpened fuel env opt s) s u' (udmabuf_open-Gains env _) d (λ u. tt)
                (λ desc_dev u'' desc_is l. (
                  record {
                    identification = (v, e);
                    capabilities = (w, refl);
                    limits = (x, refl, refl);
                    ranges = (omega arith, omega arith, omega arith);
                    tx_whole = refl;
                    rx_whole = refl;
                    desc_whole = refl;
                  },
                  record {
                    regs_found = f;
                    gate_found = g;
                    dma_found = h;
                    tx_found = (t, u, named opt.tx_buf _ t tx_is);
                    rx_found = (u, u', named opt.rx_buf _ u rx_is);
                    desc_found = (u', u'', named opt.desc_buf _ u' desc_is);
                  },
                  l,
                ))))

  identify_end :
      (regs_dev : Uio) (s t : Trace)
      → FoundBy (uio_open env) opt.regs_name regs_dev
      → Balance (uio_handles regs_dev) [] s t
      → Returns (identify fuel env opt regs_dev t) (HwOpened fuel env opt s)
  unfolding identify uio_rd open_rest
  identify_end regs_dev s t found b =
      Returns-if (env.reg t regs 0 != id_value) _ _ _ (HwOpened fuel env opt s) (λ _. tt)
        (λ known.
          open_more _ (HwOpened fuel env opt s) s _ (uio_open-Gains env opt.gate_name)
            (record { holds = λ g. omega (arith, b.holds g) }) (λ u. tt)
            (λ gate_dev u gate_is c.
              open_more _ (HwOpened fuel env opt s) s u
                (axidma_open-Gains law fuel enough opt.dma_name) c (λ u. tt)
                (λ dma_dev u' dma_is d.
                  buffers_end regs_dev gate_dev dma_dev s u' t _ _ found (_, u, gate_is)
                    (u, u', dma_is) (ground (arith, known)) d)))

-- Under the laws and with fuel for the reset of the engine, `hw_open` ends. If it succeeds, the
-- register bank has answered with the identification of the core; bitness, width and height are
-- those of its capability registers and in the ranges of 8 and 16 bits; each of the six devices is
-- what an opening under its own name found, the name of the options or for a buffer its default;
-- the regions are the whole tx and rx buffers from offset 0 on; and the run holds the descriptors
-- and mappings of the six devices and no others beyond those before it.
pub hw_open_total :
    {env : Env} {k : ℕ} (fuel : ℕ) (opt : Options) (t : Trace)
    → Lawful env k
    → 102_000_000 < fuel
    → Returns (hw_open fuel env opt t) (HwOpened fuel env opt t)
unfolding hw_open
hw_open_total {env} fuel opt t law enough =
    open_more _ (HwOpened fuel env opt t) t t (uio_open-Gains env opt.regs_name) (Balance-refl t)
      (λ u. tt) (λ regs_dev u e b. identify_end law fuel enough opt regs_dev t u (t, u, e) b)

-- A computation ends, and has released `lost`.
record Loses (lost : List SystemHandle) (m : M (Unit {0})) : Type 0 where
  ends : (t : Trace) → Returns (m t) (λ _ u. Balance [] lost t u)

-- A release, then another.
Loses-then :
    {m n : M (Unit {0})} {a b : List SystemHandle} → Loses a m → Loses b n → Loses (a ++ b) (m >> n)
Loses-then {m} {n} {a} {b} h k = record {
  ends = λ t.
      Returns-bind m (λ _. n) t (λ _ u. Balance [] a t u) (λ _ u. Balance [] (a ++ b) t u)
        (h.ends t)
        (λ _ u p.
          Returns-map (n u) (λ _ v. Balance [] b u v) (λ _ v. Balance [] (a ++ b) t v) (k.ends u)
            (λ _ v q. Balance-trans p q));
}

close_all :
    (o : OpenHw)
    → Loses
        (udmabuf_handles o.desc_dev
          ++ (udmabuf_handles o.rx_dev
              ++ (udmabuf_handles o.tx_dev
                  ++ (axidma_handles o.dma_dev
                      ++ (uio_handles o.gate_dev ++ uio_handles o.regs_dev)))))
        (hw_close o)
unfolding hw_close
close_all o =
    Loses-then (record { ends = udmabuf_close-Loses o.desc_dev })
      (Loses-then (record { ends = udmabuf_close-Loses o.rx_dev })
        (Loses-then (record { ends = udmabuf_close-Loses o.tx_dev })
          (Loses-then (record { ends = axidma_close-Loses o.dma_dev })
            (Loses-then (record { ends = uio_close-Loses o.gate_dev })
              (record { ends = uio_close-Loses o.regs_dev })))))

pub hw_close-Loses :
    (o : OpenHw) (t : Trace) → Returns (hw_close o t) (λ _ u. Balance [] (open_handles o) t u)
hw_close-Loses o t =
    let regs_h = uio_handles o.regs_dev in
    let gate_h = uio_handles o.gate_dev in
    let dma_h = axidma_handles o.dma_dev in
    let tx_h = udmabuf_handles o.tx_dev in
    let rx_h = udmabuf_handles o.rx_dev in
    let desc_h = udmabuf_handles o.desc_dev in
    Returns-map (hw_close o t)
      (λ _ u. Balance [] (desc_h ++ (rx_h ++ (tx_h ++ (dma_h ++ (gate_h ++ regs_h))))) t u)
      (λ _ u. Balance [] (open_handles o) t u) ((close_all o).ends t)
      (λ _ u b. record {
        holds = λ g. omega (
          arith,
          b.holds g,
          occurrences-append g desc_h (rx_h ++ (tx_h ++ (dma_h ++ (gate_h ++ regs_h)))),
          occurrences-append g rx_h (tx_h ++ (dma_h ++ (gate_h ++ regs_h))),
          occurrences-append g tx_h (dma_h ++ (gate_h ++ regs_h)),
          occurrences-append g dma_h (gate_h ++ regs_h),
          occurrences-append g gate_h regs_h,
          occurrences-append g ((((regs_h ++ gate_h) ++ dma_h) ++ tx_h) ++ rx_h) desc_h,
          occurrences-append g (((regs_h ++ gate_h) ++ dma_h) ++ tx_h) rx_h,
          occurrences-append g ((regs_h ++ gate_h) ++ dma_h) tx_h,
          occurrences-append g (regs_h ++ gate_h) dma_h,
          occurrences-append g regs_h gate_h,
        );
      })

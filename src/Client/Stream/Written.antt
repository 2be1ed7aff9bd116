-- ===== src/Client/Stream/Written.antt =====
-- The files that the client has written, and those that `run_stream` writes.
use open_jls_demos.Prelude.{
  ℕ, zero, suc, ◌+◌, ◌≡◌, ◌⊎◌, inl, inr, refl, sym, ap, ◌∙◌, Bool, true, ◌&&◌, List, [], ◌∷◌, ◌++◌,
  map, append_assoc, append-nil, some, take, drop, get_or, u64, ◌==◌, if◌then◌else◌, Bool-cases,
  arith, ℤ, pos, negsuc, is_zero,
}
use open_jls_demos.World.{Env, Trace, SaveIo, saved, received, sent, M, pure}
use open_jls_demos.World.Returns.{Returns, Returns-map}
use open_jls_demos.World.System.{sys_save}
use open_jls_demos.World.Keeps.{IsCalm, is_plain}
use open_jls_demos.Client.Files.{jls_path, write_jls}
use open_jls_demos.Client.Reply.{table_len, write_images}
use open_jls_demos.Client.Stream.{or_fail_one, write_stream}

-- The files written to the end, in order.
abbrev pub complete : SaveIo → Bool
complete io = io.created && io.filled && io.flushed

abbrev pub kept : Trace → List (List ℕ × List ℕ)
kept [] = []
kept (saved path bytes io ∷ t) = if complete io then kept t ++ ((path, bytes) ∷ []) else kept t
kept (_ ∷ t) = kept t

abbrev pub SameFiles : Trace → Trace → Type 0
SameFiles t u = kept u ≡ kept t

pub SameFiles-IsCalm : IsCalm SameFiles
SameFiles-IsCalm = record {
  pre = record { same = λ t. refl; after = λ p q. q ∙ p };
  plain = plain_files;
}
  where
    plain_files : (e : _) → is_plain e ≡ true → (t : Trace) → kept (e ∷ t) ≡ kept t
    plain_files (saved path bytes io) h t = cc
    plain_files e h t = refl

-- The file for an image with its index.
abbrev pub file_of : List ℕ → List (List ℕ) → ℕ × List ℕ → List ℕ × List ℕ
file_of dir paths (i, bytes) = (jls_path dir (get_or paths i []), bytes)

-- Files were written and nothing else was done; 0 says that they are those of `ws`.
abbrev pub WriteEnd : Trace → List (List ℕ × List ℕ) → ℤ → Trace → Type 0
WriteEnd t files rc u =
    (received u ≡ received t)
    × (sent u ≡ sent t)
    × (((rc ≡ pos 0) × (kept u ≡ kept t ++ files)) ⊎ (rc ≡ pos 1))

-- The images that the table of lengths cuts out of the payload.
abbrev pub some_images : ℕ → ℕ → List ℕ → ℕ → List (ℕ × List ℕ)
some_images zero i payload off = []
some_images (suc n) i payload off =
    let len = table_len payload i in
    let skipped = some_images n (i + 1) payload off in
    let rest = some_images n (i + 1) payload (u64 (off + len)) in
    if len == 0 then skipped else (i, take len (drop off payload)) ∷ rest

-- Where no write fails, the images are known beforehand.
pub write_images-all :
    (n i : ℕ) (payload : List ℕ) (off : ℕ)
    → write_images (λ i b. true) n i payload off ≡ some (some_images n i payload off)
unfolding write_images
write_images-all zero i payload off = refl
write_images-all (suc n) i payload off = elim (Bool-cases (table_len payload i == 0)) [
  | inl empty ↦ rw empty (write_images-all n (i + 1) payload off)
  | inr full ↦ rw (full, write_images-all n (i + 1) payload (u64 (off + table_len payload i))) refl
]

module _ (env : Env) (dir : List ℕ) (paths : List (List ℕ)) where
  abbrev files_from : ℕ → ℕ → List ℕ → ℕ → List (List ℕ × List ℕ)
  files_from n i payload off = map (file_of dir paths) (some_images n i payload off)

  one_more :
      (t u : Trace) (f : List ℕ × List ℕ) (files : List (List ℕ × List ℕ))
      → kept u ≡ kept t ++ (f ∷ [])
      → received u ≡ received t
      → sent u ≡ sent t
      → (rc : ℤ) (v : Trace) → WriteEnd u files rc v
      → WriteEnd t (f ∷ files) rc v
  one_more t u f files k x y rc v (a, b, inl (z, e)) =
      (a ∙ x, b ∙ y, inl (z, e ∙ ap (λ w. w ++ files) k ∙ append_assoc (kept t) (f ∷ []) files))
  one_more t u f files k x y rc v (a, b, inr z) = (a ∙ x, b ∙ y, inr z)

  -- One image is written, then the rest.
  write_one :
      (rest : M ℤ) (in_path bytes : List ℕ) (files : List (List ℕ × List ℕ)) (t : Trace)
      → ((u : Trace) → Returns (rest u) (WriteEnd u files))
      → Returns
          (or_fail_one (write_jls env dir in_path bytes) rest t)
          (WriteEnd t ((jls_path dir in_path, bytes) ∷ files))
  unfolding write_jls sys_save
  write_one rest in_path bytes files t ih = go (env.save t (jls_path dir in_path) bytes)
    where
      file : List ℕ × List ℕ
      file = (jls_path dir in_path, bytes)

      go :
          (io : SaveIo)
          → Returns
              ((if is_zero (if complete io then pos 0 else negsuc 0) then rest else pure (pos 1))
                (saved (jls_path dir in_path) bytes io ∷ t))
              (WriteEnd t (file ∷ files))
      go io = elim (Bool-cases (complete io)) [
        | inl fine ↦
            let u : Trace = saved (jls_path dir in_path) bytes io ∷ t in
            let k : kept u ≡ kept t ++ (file ∷ []) = ground (arith, fine) in
            rw fine (
              Returns-map (rest u) (WriteEnd u files) (WriteEnd t (file ∷ files)) (ih u)
                (one_more t u file files k refl refl))
        | inr bad ↦ rw bad (refl, refl, inr refl)
      ]

  pub write_stream-Ends :
      (n i : ℕ) (payload : List ℕ) (off : ℕ) (t : Trace)
      → Returns
          (write_stream env dir paths n i payload off t)
          (WriteEnd t (files_from n i payload off))
  unfolding write_stream
  write_stream-Ends zero i payload off t = (refl, refl, inl (refl, sym (append-nil (kept t))))
  write_stream-Ends (suc n) i payload off t = elim (Bool-cases (table_len payload i == 0)) [
    | inl empty ↦ rw empty (write_stream-Ends n (i + 1) payload off t)
    | inr full ↦ rw full (
        write_one (write_stream env dir paths n (i + 1) payload (u64 (off + table_len payload i)))
          (get_or paths i []) (take (table_len payload i) (drop off payload))
          (files_from n (i + 1) payload (u64 (off + table_len payload i))) t
          (write_stream-Ends n (i + 1) payload (u64 (off + table_len payload i))))
  ]

-- What the code 0 of the writing loop says.
pub WriteEnd-zero :
    (t : Trace) (files : List (List ℕ × List ℕ)) (u : Trace)
    → WriteEnd t files (pos 0) u
    → kept u ≡ kept t ++ files
WriteEnd-zero t files u (x, y, inl (z, e)) = e
WriteEnd-zero t files u (x, y, inr z) = cc

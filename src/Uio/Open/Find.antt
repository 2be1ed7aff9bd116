-- ===== src/Uio/Open/Find.antt =====
-- Which device `uio_find` finds.
use open_jls_demos.Prelude.{
  ℕ, ◌<◌, ◌≡◌, inl, inr, refl, sym, ap, ◌∙◌, true, false, List, [], ◌∷◌, ◌++◌, Option, none, some,
  length, if◌then◌else◌, All, Bool-cases, codes, starts_with, strstr, arith,
}
use open_jls_demos.World.{Env, Trace, pure, file_read, dir_read}
use open_jls_demos.World.Returns.{Returns, Returns-map}
use open_jls_demos.World.System.{sys_file, sys_dir}
use open_jls_demos.Uio.Open.{
  line_of, sysfs_read_line, name_path, dev_len, name_len, chosen, text_of, found, find_loop,
  find_in, uio_find,
}

-- `p` begins `s`, or stands anywhere in it.
abbrev pub Begins : List ℕ → List ℕ → Type 0
Begins p s = (rest : List ℕ) × (s ≡ p ++ rest)

abbrev pub Contains : List ℕ → List ℕ → Type 0
Contains p s = (front : List ℕ) × (rest : List ℕ) × (s ≡ front ++ (p ++ rest))

starts_with-Begins : (p s : List ℕ) → starts_with p s ≡ true → Begins p s
starts_with-Begins [] s e = (s, refl)
starts_with-Begins (c ∷ p) [] e = cc
starts_with-Begins (c ∷ p) (d ∷ s) e =
    let (rest, q) = starts_with-Begins p s (ground (arith, e)) in
    let same : c ≡ d = ground (arith, e) in (rest, ap (λ x. x ∷ s) (sym same) ∙ ap (◌∷◌ c) q)

starts_with_self : (p rest : List ℕ) → starts_with p (p ++ rest) ≡ true
starts_with_self [] rest = refl
starts_with_self (c ∷ p) rest = ground (arith, starts_with_self p rest)

strstr-Contains : (s p : List ℕ) → strstr s p ≡ true → Contains p s
strstr-Contains [] p e = let (rest, q) = starts_with-Begins p [] e in ([], rest, q)
strstr-Contains (c ∷ s) p e = elim (Bool-cases (starts_with p (c ∷ s))) [
  | inl here ↦ let (rest, q) = starts_with-Begins p (c ∷ s) here in ([], rest, q)
  | inr later ↦
      let (front, rest, q) = strstr-Contains s p (ground (arith, e, later)) in
      (c ∷ front, rest, ap (◌∷◌ c) q)
]

strstr_here : (s p : List ℕ) → starts_with p s ≡ true → strstr s p ≡ true
strstr_here [] p e = e
strstr_here (c ∷ s) p e = ground (arith, e)

strstr_self : (front p rest : List ℕ) → strstr (front ++ (p ++ rest)) p ≡ true
strstr_self [] p rest = strstr_here (p ++ rest) p (starts_with_self p rest)
strstr_self (c ∷ front) p rest = ground (arith, strstr_self front p rest)

-- An entry of the class directory is a device, its name attribute can be read and contains the
-- name, and both texts fit their buffers.
pub record Qualifies (fs : List ℕ → Option (List ℕ)) (name entry attr : List ℕ) : Type 0 where
  pub device : Begins (codes "uio") entry
  pub readable : line_of 128 (fs (name_path entry)) ≡ some attr
  pub named : Contains name attr
  pub dev_fits : length (codes "/dev/" ++ entry) < dev_len
  pub name_fits : length attr < name_len

abbrev pub Unfit : (List ℕ → Option (List ℕ)) → List ℕ → List ℕ → Type 0
Unfit fs name entry = (attr : List ℕ) → ¬ Qualifies fs name entry attr

-- The first entry that qualifies, if there is one.
abbrev pub FirstFit :
    (List ℕ → Option (List ℕ)) → List ℕ → List (List ℕ) → Option (List ℕ × List ℕ) → Type 0
FirstFit fs name entries none = All (Unfit fs name) entries
FirstFit fs name entries (some (dev, attr)) =
    (before : List (List ℕ)) × (entry : List ℕ) × (after : List (List ℕ)) × (entries
      ≡ before ++ (entry ∷ after))
    × (dev ≡ codes "/dev/" ++ entry)
    × Qualifies fs name entry attr
    × All (Unfit fs name) before

module _ (fs : List ℕ → Option (List ℕ)) (name : List ℕ) where
  chosen-Qualifies :
      (entry : List ℕ) (r : Option (List ℕ))
      → line_of 128 (fs (name_path entry)) ≡ r
      → starts_with (codes "uio") entry ≡ true
      → chosen name entry r ≡ true
      → Qualifies fs name entry (text_of r)
  unfolding chosen
  chosen-Qualifies entry none e s c = cc
  chosen-Qualifies entry (some attr) e s c = record {
    device = starts_with-Begins (codes "uio") entry s;
    readable = e;
    named = strstr-Contains attr name (ground (arith, c));
    dev_fits = ground (arith, c);
    name_fits = ground (arith, c);
  }

  chosen_of :
      (entry attr : List ℕ) → Qualifies fs name entry attr → chosen name entry (some attr) ≡ true
  unfolding chosen
  chosen_of entry attr q =
      let (front, rest, e) = q.named in
      let here : strstr attr name ≡ true =
        ap (λ s. strstr s name) e ∙ strstr_self front name rest in
      ground (arith, here, q.dev_fits, q.name_fits)

  not_device : (entry : List ℕ) → starts_with (codes "uio") entry ≡ false → Unfit fs name entry
  not_device entry s attr q =
      let (rest, e) = q.device in
      let t : starts_with (codes "uio") entry ≡ true =
        ap (starts_with (codes "uio")) e ∙ starts_with_self (codes "uio") rest in
      cc

  not_chosen :
      (entry : List ℕ)
      → chosen name entry (line_of 128 (fs (name_path entry))) ≡ false
      → Unfit fs name entry
  not_chosen entry c attr q =
      let t : chosen name entry (line_of 128 (fs (name_path entry))) ≡ true =
        ap (chosen name entry) q.readable ∙ chosen_of entry attr q in
      cc

  FirstFit-skip :
      (entry : List ℕ) (entries : List (List ℕ)) (r : Option (List ℕ × List ℕ))
      → Unfit fs name entry
      → FirstFit fs name entries r
      → FirstFit fs name (entry ∷ entries) r
  FirstFit-skip entry entries none u h = (u, h)
  FirstFit-skip entry entries (some (dev, attr)) u (before, e, after, p, d, q, a) =
      (entry ∷ before, e, after, ap (◌∷◌ entry) p, d, q, (u, a))

  module _ (env : Env) (stable : (t : Trace) (path : List ℕ) → env.file t path ≡ fs path) where
    find_loop-FirstFit :
        (entries : List (List ℕ)) (t : Trace)
        → Returns (find_loop env name entries t) (λ r _. FirstFit fs name entries r)
    unfolding find_loop sysfs_read_line sys_file found
    find_loop-FirstFit [] t = tt
    find_loop-FirstFit (entry ∷ entries) t = elim (Bool-cases (starts_with (codes "uio") entry)) [
      | inl device ↦
          let u : Trace = file_read (name_path entry) (env.file t (name_path entry)) ∷ t in
          let same : line_of 128 (fs (name_path entry))
              ≡ line_of 128 (env.file t (name_path entry)) =
            ap (line_of 128) (sym (stable t (name_path entry))) in
          rw device (
            go u (line_of 128 (env.file t (name_path entry))) same device
              (find_loop-FirstFit entries u))
      | inr other ↦ rw other (
          Returns-map (find_loop env name entries t) (λ r _. FirstFit fs name entries r)
            (λ r _. FirstFit fs name (entry ∷ entries) r) (find_loop-FirstFit entries t)
            (λ r u h. FirstFit-skip entry entries r (not_device entry other) h))
    ]
      where
        go :
            (u : Trace) (r : Option (List ℕ))
            → line_of 128 (fs (name_path entry)) ≡ r
            → starts_with (codes "uio") entry ≡ true
            → Returns (find_loop env name entries u) (λ x _. FirstFit fs name entries x)
            → Returns
                ((if chosen name entry r then pure (found entry r) else find_loop env name entries)
                  u)
                (λ x _. FirstFit fs name (entry ∷ entries) x)
        go u r e device ih = elim (Bool-cases (chosen name entry r)) [
          | inl yes_it ↦
              rw yes_it
                ([], entry, entries, refl, refl, chosen-Qualifies entry r e device yes_it, tt)
          | inr not_it ↦ rw not_it (
              Returns-map (find_loop env name entries u) (λ x _. FirstFit fs name entries x)
                (λ x _. FirstFit fs name (entry ∷ entries) x) ih
                (λ x v h.
                  FirstFit-skip entry entries x
                    (not_chosen entry (ap (chosen name entry) e ∙ not_it)) h))
        ]

-- Where sysfs does not change, `uio_find` ends with the first entry of the class directory, in the
-- order in which it is listed, that begins with `uio`, has a name attribute that contains the name
-- looked for, and fits the buffers with its device path and that attribute; it fails exactly when
-- no entry does.
pub uio_find_first :
    (env : Env) (fs : List ℕ → Option (List ℕ)) (entries : List (List ℕ)) (name : List ℕ)
    (t : Trace)
    → ((t : Trace) (path : List ℕ) → env.file t path ≡ fs path)
    → ((t : Trace) → env.dir t (codes "/sys/class/uio") ≡ some entries)
    → Returns (uio_find env name t) (λ r _. FirstFit fs name entries r)
unfolding uio_find sys_dir find_in
uio_find_first env fs entries name t stable listed = rw (listed t) (
    find_loop-FirstFit fs name env stable entries
      (dir_read (codes "/sys/class/uio") (some entries) ∷ t))

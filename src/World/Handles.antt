-- ===== src/World/Handles.antt =====
-- The descriptors and mappings that a run has acquired and released.
use open_jls_demos.Prelude.{
  ℕ, ◌+◌, ◌≡◌, Bool, false, List, [], ◌∷◌, ◌++◌, some, ◌==◌, if◌then◌else◌, arith,
}
use open_jls_demos.World.{
  Trace, opened, mapped, closed, unmapped, socket_made, accept_done, accepted,
}

pub data Handle : Type 0 where
  descriptor : ℕ → Handle
  mapping : ℕ → Handle

abbrev pub same : Handle → Handle → Bool
same (descriptor a) (descriptor b) = a == b
same (mapping a) (mapping b) = a == b
same (descriptor a) (mapping b) = false
same (mapping a) (descriptor b) = false

-- 1 for the handle itself, 0 for any other
abbrev pub one : Handle → Handle → ℕ
one h g = if same h g then 1 else 0

abbrev pub occurrences : Handle → List Handle → ℕ
occurrences h [] = 0
occurrences h (g ∷ gs) = one h g + occurrences h gs

-- How often the run has acquired the handle, and released it.
abbrev pub acquired : Handle → Trace → ℕ
acquired h [] = 0
acquired h (opened _ (some fd) ∷ t) = one h (descriptor fd) + acquired h t
acquired h (mapped _ _ (some a) ∷ t) = one h (mapping a) + acquired h t
acquired h (socket_made (some fd) ∷ t) = one h (descriptor fd) + acquired h t
acquired h (accept_done (accepted fd) ∷ t) = one h (descriptor fd) + acquired h t
acquired h (_ ∷ t) = acquired h t

abbrev pub released : Handle → Trace → ℕ
released h [] = 0
released h (closed fd ∷ t) = one h (descriptor fd) + released h t
released h (unmapped a _ ∷ t) = one h (mapping a) + released h t
released h (_ ∷ t) = released h t

-- Between `t` and `t'`, `gained` was acquired and not released, and `lost` released that had been
-- acquired before; every other handle was released as often as acquired.
pub record Balance (gained lost : List Handle) (t t' : Trace) : Type 0 where
  pub holds :
      (h : Handle)
      → acquired h t' + released h t + occurrences h lost
        ≡ acquired h t + released h t' + occurrences h gained

pub occurrences-append :
    (h : Handle) (xs ys : List Handle)
    → occurrences h (xs ++ ys) ≡ occurrences h xs + occurrences h ys
occurrences-append h [] ys = omega arith
occurrences-append h (x ∷ xs) ys = omega (arith, occurrences-append h xs ys)

pub Balance-refl : (t : Trace) → Balance [] [] t t
Balance-refl t = record { holds = λ h. omega arith }

pub Balance-trans :
    {a b c d : List Handle} {t u v : Trace}
    → Balance a b t u
    → Balance c d u v
    → Balance (a ++ c) (b ++ d) t v
Balance-trans {a} {b} {c} {d} p q = record {
  holds =
      λ h. omega (arith, p.holds h, q.holds h, occurrences-append h a c, occurrences-append h b d);
}

-- Handles that are gained and lost cancel.
pub Balance-cancel :
    (hs : List Handle) {a b : List Handle} {t u : Trace}
    → Balance (hs ++ a) (hs ++ b) t u
    → Balance a b t u
Balance-cancel hs {a} {b} p = record {
  holds = λ h. omega (arith, p.holds h, occurrences-append h hs a, occurrences-append h hs b);
}

-- ===== src/Consts/Legacy.antt =====
-- What the translation of legacy kinds does.
use hauler.Base.{◌≡◌, refl, false, ◌++◌, Text, has_prefix, Bool-cases, inl, inr}
use hauler.Consts.{old_prefix, new_prefix, normalize_legacy_kind}

-- no current kind has the legacy prefix
new-not-old : (s : Text) → has_prefix (new_prefix ++ s) old_prefix ≡ false
unfolding has_prefix
new-not-old s = refl

pub normalize_idem :
    (s : Text) → normalize_legacy_kind (normalize_legacy_kind s) ≡ normalize_legacy_kind s
unfolding normalize_legacy_kind
normalize_idem s = elim (Bool-cases (has_prefix s old_prefix)) [
  | inl legacy ↦ rw legacy (rw (new-not-old _) refl)
  | inr current ↦ rw current (rw current refl)
]

normalize_legacy : (s : Text) → normalize_legacy_kind (old_prefix ++ s) ≡ new_prefix ++ s
unfolding normalize_legacy_kind has_prefix
normalize_legacy s = refl

-- A legacy kind loses its prefix and keeps what follows, and a second translation of any kind changes
-- nothing.
normalize_lem :
    (s : Text)
    → (normalize_legacy_kind (old_prefix ++ s) ≡ new_prefix ++ s)
      × (normalize_legacy_kind (normalize_legacy_kind s) ≡ normalize_legacy_kind s)
normalize_lem s = (normalize_legacy s, normalize_idem s)

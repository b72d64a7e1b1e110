-- ===== src/Package/FallbackVersion/Parts.antt =====
-- Reading, writing and matching a `FallbackVersion`.
use linyaps.Prelude.{
  ap₂, length-append, ◌≡◌, ◌↔◌, refl, true, false, List, [], ◌∷◌, ◌++◌, Text, text_eq, text_eq_iff,
  text_eq_refl, All, is_empty, arith, subst, Bool-cases, inl, inr,
}
use linyaps.Error.{ok, ok-injective}
use linyaps.Qt.{Qt, SplitLaws}
use linyaps.Utils.Strings
use linyaps.Utils.Strings.{split_string}
use linyaps.Utils.Strings.Split.{IsPart, split_string-IsPart, split_string-join}
use linyaps.Package.FallbackVersion.{
  FallbackVersion, parse, to_string, semantic_match, starts_with_parts,
}

-- A version with parts, none of them empty or with a dot in it.
pub record IsParts (v : FallbackVersion) : Type 0 where
  pub some_part : is_empty v.list ≡ false
  pub parts : All (IsPart b'.') v.list

-- The parts begin with the fuzzy version's.
abbrev pub BeginsWith : List Text → List Text → Type 0
BeginsWith list parts = (rest : List Text) × (list ≡ parts ++ rest)

module _ (qt : Qt) (laws : SplitLaws qt) where
  -- A `FallbackVersion` that was read has parts, none of them empty or with a dot in it.
  pub parse-IsParts : (raw : Text) (v : FallbackVersion) → parse qt raw ≡ ok v → IsParts v
  unfolding parse
  parse-IsParts raw v h = elim (Bool-cases (is_empty (qt.split raw b'.'))) [
    | inl e ↦ absurd (ground arith)
    | inr e ↦ subst IsParts (ok-injective (rw e at h)) (record {
      some_part = e;
      parts = rw (laws.split_lem raw b'.') (split_string-IsPart raw b'.');
    })
  ]

  -- A `FallbackVersion` with parts, none of them empty or with a dot in it, is read back from its
  -- text.
  pub parse_fallback-to_string :
      (v : FallbackVersion) → IsParts v → parse qt (to_string qt v) ≡ ok v
  unfolding parse to_string
  parse_fallback-to_string v p = rw (
    laws.join_lem v.list b'.',
    laws.split_lem (Strings.join b'.' v.list) b'.',
    split_string-join b'.' v.list p.parts,
    p.some_part,
  )

starts_with_parts_sound :
    (list parts : List Text) → starts_with_parts list parts ≡ true → BeginsWith list parts
unfolding starts_with_parts
starts_with_parts_sound list [] h = (list, refl)
starts_with_parts_sound [] (p ∷ parts) h = absurd (cc)
starts_with_parts_sound (l ∷ list) (p ∷ parts) h = elim (Bool-cases (text_eq l p)) [
  | inl e ↦
      let (rest, k) = starts_with_parts_sound list parts (rw e at h) in
      (rest, ap₂ (λ x xs. x ∷ xs) ((text_eq_iff l p).0 e) k)
  | inr e ↦ absurd (ground arith)
]

starts_with_parts_complete :
    (parts rest : List Text) → starts_with_parts (parts ++ rest) parts ≡ true
unfolding starts_with_parts
starts_with_parts_complete [] [] = refl
starts_with_parts_complete [] (r ∷ rest) = refl
starts_with_parts_complete (p ∷ parts) rest =
    rw (text_eq_refl p) (starts_with_parts_complete parts rest)

-- A `FallbackVersion` matches a fuzzy version exactly when the fuzzy version has parts (those between dots
-- that are not empty), and the version's parts begin with them.
pub semantic_match_iff :
    (qt : Qt) (v : FallbackVersion) (fuzzy : Text)
    → (semantic_match qt v fuzzy ≡ true)
      ↔ ((is_empty (qt.split fuzzy b'.') ≡ false) × BeginsWith v.list (qt.split fuzzy b'.'))
unfolding semantic_match
semantic_match_iff qt v fuzzy = (
  λ h. (ground arith, starts_with_parts_sound v.list (qt.split fuzzy b'.') (ground arith)),
  λ h. let (rest, e) = h.1 in matching h.0 rest e,
)
  where
    matching :
        is_empty (qt.split fuzzy b'.') ≡ false
        → (rest : List Text) → v.list ≡ qt.split fuzzy b'.' ++ rest
        → semantic_match qt v fuzzy ≡ true
    matching k rest e = ground (
      arith,
      length-append (qt.split fuzzy b'.') rest,
      starts_with_parts_complete (qt.split fuzzy b'.') rest,
    )

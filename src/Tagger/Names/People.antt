-- ===== src/Tagger/Names/People.antt =====
-- The people that are kept in crates/kengram-tagger-deterministic/src/ner.rs.
use k_engram.Prelude.{
  true, false, not, List, [], ◌∷◌, map, ◌≡◌, refl, ap, arith, retain, In, In-retain, In-of_retain,
  All, All-of_In,
}
use k_engram.Text.{Text, codes, elem}
use k_engram.Unicode.{Unicode}
use k_engram.Dedupe.{Unique, dedupe-Unique, dedupe-All, dedupe-never_full}
use k_engram.Tagger.Names.{
  Span, texts_of, strip_trailing_year, is_compound, filter_person_in_product, ner_output,
}

module _ (u : Unicode) where
  -- The spans of people without their years, and the spans of products and organizations.
  abbrev pub people_spans : List Span → List Text
  people_spans spans = map strip_trailing_year (texts_of (codes "person" ∷ []) spans)

  abbrev pub product_spans : List Span → List Text
  product_spans = texts_of (codes "product" ∷ codes "organization" ∷ [])

  -- No two people differ only by case, each is a span of a person without its year, and none is a part
  -- of the name of a product or organization; a person that is no such part is kept up to case.
  pub record IsPeople (spans : List Span) (people : List Text) : Type 0 where
    pub unique : Unique (map u.to_lowercase people)
    pub from_spans :
        All
          (λ p. In p (people_spans spans) × (is_compound u (product_spans spans) p ≡ false))
          people
    pub complete :
        (p : Text)
        → In p (people_spans spans)
        → is_compound u (product_spans spans) p ≡ false
        → elem (u.to_lowercase p) (map u.to_lowercase people) ≡ true

  pub ner_output-IsPeople : (spans : List Span) → IsPeople spans (ner_output u spans).people
  unfolding ner_output filter_person_in_product
  ner_output-IsPeople spans =
      let kept = retain (λ p. not (is_compound u (product_spans spans) p)) (people_spans spans) in
      record {
        unique = dedupe-Unique u.to_lowercase (λ n. false) kept;
        from_spans =
            dedupe-All u.to_lowercase (λ n. false)
              (λ p. In p (people_spans spans) × (is_compound u (product_spans spans) p ≡ false))
              kept
              (All-of_In
                (λ p. In p (people_spans spans) × (is_compound u (product_spans spans) p ≡ false))
                kept
                (λ p m.
                  let (there, h) =
                    In-retain (λ p. not (is_compound u (product_spans spans) p)) p
                      (people_spans spans) m in
                  (there, ground arith)));
        complete = λ p there h.
            dedupe-never_full u.to_lowercase (λ n. false) (λ n. refl) p kept
              (In-of_retain (λ p. not (is_compound u (product_spans spans) p)) p
                (people_spans spans) there (ap not h));
      }

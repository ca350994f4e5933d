-- ===== src/Tests/VariantCases.antt =====
-- The slugs of variants at concrete inputs.
use hive_manager.Base.{arith, ◌≡◌, refl, [], ◌∷◌, codes, decimal, digits_of}
use hive_manager.Variants.{slugify_variant_name, variant_slugs}
use hive_manager.Variants.Distinct.{AllDiffer, variant_slugs-AllDiffer}
use hive_manager.Variants.Slugs.{IsSlug, slugify_variant_name-IsSlug}

slug_of_words : slugify_variant_name (codes "  Fast & Loose!") ≡ codes "fast-loose"
unfolding slugify_variant_name
slug_of_words = refl

slug_of_none : slugify_variant_name (codes " !? ") ≡ codes "variant"
unfolding slugify_variant_name
slug_of_none = refl

-- Two variants with one slug.
same_slug :
    variant_slugs (codes "a" ∷ codes "A" ∷ codes "a 2" ∷ []) []
    ≡ codes "a" ∷ codes "a-2" ∷ codes "a-2" ∷ []
unfolding variant_slugs decimal digits_of
same_slug = refl

slugify_variant_name-IsSlug_example : IsSlug (slugify_variant_name (codes "  Fast & Loose!"))
slugify_variant_name-IsSlug_example = slugify_variant_name-IsSlug (codes "  Fast & Loose!")

variant_slugs-AllDiffer_example :
    AllDiffer (variant_slugs (codes "a" ∷ codes "A" ∷ codes "b" ∷ codes "a" ∷ []) [])
unfolding slugify_variant_name
variant_slugs-AllDiffer_example =
    variant_slugs-AllDiffer (codes "a" ∷ codes "A" ∷ codes "b" ∷ codes "a" ∷ [])
      (refl, (refl, (refl, (refl, tt)))) (omega arith)

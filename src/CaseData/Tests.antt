-- ===== src/CaseData/Tests.antt =====
-- A patch of the address of an applicant.
use aceryx.Prelude.{Bool, false, ◌==◌, ◌≡◌, ◌↔◌, refl, some, [], ◌∷◌}
use aceryx.Prelude.Map.{lookup}
use aceryx.CaseData.Diff.{flattened, compute_field_diff}
use aceryx.CaseData.Diff.Laws.{Change, compute_field_diff_iff}
use aceryx.Json.{Json, str, num, obj, Fields, end, field}
use aceryx.CaseData.{get, deep_merge}
use aceryx.CaseData.Merge.{Distinct, value_at, Untouched, absent, below, deep_merge_leaf}

abbrev base : Fields
base = field "applicant" (obj (field "name" (str "Ada") (field "city" (str "Bath") end))) end

abbrev patch : Fields
patch = field "applicant" (obj (field "city" (str "York") end)) (field "score" (num 7) end)

patch-Distinct : Distinct patch
unfolding Distinct get
patch-Distinct = (refl, ((refl, (tt, tt)), (refl, (tt, tt))))

patch-city : value_at ("applicant" ∷ "city" ∷ []) (obj patch) ≡ some (str "York")
unfolding get
patch-city = refl

patch-Untouched : Untouched ("applicant" ∷ "name" ∷ []) patch
unfolding get
patch-Untouched = below refl (absent refl)

deep_merge_leaf_example :
    value_at ("applicant" ∷ "city" ∷ []) (obj (deep_merge base patch)) ≡ some (str "York")
deep_merge_leaf_example =
    deep_merge_leaf base patch ("applicant" ∷ "city" ∷ []) (str "York") patch-Distinct refl
      patch-city

-- No two values are deeply equal here.
abbrev differs : Json → Json → Bool
differs a b = false

compute_field_diff_iff_example :
    (lookup "applicant.city" (compute_field_diff differs base patch)
      ≡ some (record { before = str "Bath"; after = str "York" }))
    ↔ ((("" == "applicant.city") ≡ false)
        × Change differs
            (lookup "applicant.city" (flattened base))
            (lookup "applicant.city" (flattened patch))
            (record { before = str "Bath"; after = str "York" }))
compute_field_diff_iff_example =
    compute_field_diff_iff differs base patch "applicant.city"
      (record { before = str "Bath"; after = str "York" })

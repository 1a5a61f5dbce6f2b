-- ===== src/Sip/Ring/Region/Partition.antt =====
-- The ring order of `sortEndpointsByPreferredRegion` against a plain description of it.
use sipbridge.Config.{Endpoint}
use sipbridge.Prelude.{
  ◌≡◌, refl, true, false, not, List, [], ◌∷◌, ◌++◌, filter, arith, Bool-cases, inl, inr, leb,
  length,
}
use sipbridge.Sip.Ring.Region.{
  in_region, region_less, insert_stable, sort_stable, sort_endpoints_by_preferred_region,
}
use sipbridge.Text.{Text, trim_space, to_lower, is_empty}

-- Those in the region, then the others, each part in the order it had.
abbrev pub region_first : Text → List Endpoint → List Endpoint
region_first p ring = filter (in_region p) ring ++ filter (λ ep. not (in_region p ep)) ring

module _ (p : Text) where
  insert_stable-member :
      (x : Endpoint) (ys : List Endpoint)
      → in_region p x ≡ true
      → insert_stable (region_less p) x ys ≡ x ∷ ys
  unfolding insert_stable region_less
  insert_stable-member x [] h = refl
  insert_stable-member x (y ∷ ys) h = ground arith

  insert_stable-stranger :
      (x : Endpoint) (ys zs : List Endpoint)
      → in_region p x ≡ false
      → insert_stable
          (region_less p)
          x
          (filter (in_region p) ys ++ filter (λ e. not (in_region p e)) zs)
        ≡ filter (in_region p) ys ++ (x ∷ filter (λ e. not (in_region p e)) zs)
  unfolding insert_stable region_less
  insert_stable-stranger x [] [] h = refl
  insert_stable-stranger x [] (z ∷ zs) h =
      let rec = insert_stable-stranger x [] zs h in ground arith
  insert_stable-stranger x (y ∷ ys) zs h =
      let rec = insert_stable-stranger x ys zs h in ground arith

  sort_stable-region_first :
      (ring : List Endpoint) → sort_stable (region_less p) ring ≡ region_first p ring
  unfolding sort_stable
  sort_stable-region_first [] = refl
  sort_stable-region_first (x ∷ xs) = elim (Bool-cases (in_region p x)) [
    | inl h ↦ rw (h, sort_stable-region_first xs) (insert_stable-member x (region_first p xs) h)
    | inr h ↦ rw (h, sort_stable-region_first xs) (insert_stable-stranger x xs xs h)
  ]

-- With a preferred region that is not blank, the endpoints of that region are rung first and then
-- the others; inside each part the configured order is kept, and nobody is added or left out.
pub sort_endpoints_by_preferred_region-region_first :
    (preferred : Text) (ring : List Endpoint)
    → is_empty (trim_space preferred) ≡ false
    → sort_endpoints_by_preferred_region preferred ring
      ≡ region_first (to_lower (trim_space preferred)) ring
unfolding sort_endpoints_by_preferred_region
sort_endpoints_by_preferred_region-region_first preferred [] h = rw h refl
sort_endpoints_by_preferred_region-region_first preferred (x ∷ []) h = ground arith
sort_endpoints_by_preferred_region-region_first preferred (x ∷ y ∷ ys) h =
    let long : leb (length (x ∷ y ∷ ys)) 1 ≡ false = ground arith in
    rw (h, long) (sort_stable-region_first (to_lower (trim_space preferred)) (x ∷ y ∷ ys))

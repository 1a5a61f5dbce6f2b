-- ===== src/Sip/Ring/Region.antt =====
-- `sortEndpointsByPreferredRegion`: the stable sort by "is in the preferred region".
-- `sort.SliceStable`
-- orders a slice by insertion with respect to `less`; elements that compare equal keep their order.
pub mod Partition
use sipbridge.Config.{Endpoint}
use sipbridge.Prelude.{
  Bool, true, false, not, ◌&&◌, ◌||◌, List, [], ◌∷◌, ◌++◌, filter, leb, length, if◌then◌else◌,
}
use sipbridge.Text.{Text, text_eq, trim_space, to_lower, is_empty}

-- `mi`: the endpoint's location is the (lower-case, non-empty) region.
unfoldable pub in_region : Text → Endpoint → Bool
unfolding trim_space to_lower text_eq
in_region p ep = let li = to_lower (trim_space ep.location) in not (is_empty li) && text_eq li p

-- `less`
unfoldable pub region_less : Text → Endpoint → Endpoint → Bool
unfolding in_region
region_less p a b = in_region p a && not (in_region p b)

-- A stable insertion of `x` in front of a sorted rest: `x` passes only what is less than it.
unfoldable pub insert_stable :
    (Endpoint → Endpoint → Bool) → Endpoint → List Endpoint → List Endpoint
insert_stable less x [] = x ∷ []
insert_stable less x (y ∷ ys) =
    let rest = insert_stable less x ys in if less y x then y ∷ rest else x ∷ y ∷ ys

unfoldable pub sort_stable : (Endpoint → Endpoint → Bool) → List Endpoint → List Endpoint
unfolding insert_stable
sort_stable less [] = []
sort_stable less (x ∷ xs) = insert_stable less x (sort_stable less xs)

unfoldable pub sort_endpoints_by_preferred_region : Text → List Endpoint → List Endpoint
unfolding sort_stable region_less trim_space to_lower
sort_endpoints_by_preferred_region preferred ring =
    let pref = trim_space preferred in
    if is_empty pref || leb (length ring) 1
    then ring
    else sort_stable (region_less (to_lower pref)) ring

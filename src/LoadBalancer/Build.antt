-- ===== src/LoadBalancer/Build.antt =====
-- `BuildStrategy` of core/loadbalancer/load_balancer.go, as far as the instances that the strategy
-- receives. Discovery is not part of it: what it found, or that it failed, is an argument.
use go_chassis.Prelude.{
  String, List, [], ◌∷◌, Option, none, some, Bool, true, not, ◌&&◌, ◌==◌, Dict, lookup,
  if◌then◌else◌,
}
use go_chassis.Instance.{MicroServiceInstance}

abbrev pub Filter : Type 0
Filter = List MicroServiceInstance → List MicroServiceInstance

-- `isFilterExist`: an empty name turns all filters off.
unfoldable pub is_filter_exist : List String → Bool
is_filter_exist [] = true
is_filter_exist (f ∷ fs) = not (f == "") && is_filter_exist fs

abbrev pub apply_filter : Option Filter → Filter
apply_filter none l = l
apply_filter (some f) l = f l

-- The filters that are installed, in the order of their names.
unfoldable pub apply_filters :
    Dict Filter → List String → List MicroServiceInstance → List MicroServiceInstance
apply_filters installed [] l = l
apply_filters installed (name ∷ names) l =
    apply_filters installed names (apply_filter (lookup name installed) l)

-- An empty list is an error.
abbrev pub available : List MicroServiceInstance → Option (List MicroServiceInstance)
available [] = none
available (x ∷ xs) = some (x ∷ xs)

-- The instances handed to `ReceiveData`; `none` is an error.
unfoldable pub build_strategy :
    Dict Filter
    → List String
    → Option (List MicroServiceInstance)
    → Option (List MicroServiceInstance)
unfolding is_filter_exist apply_filters
build_strategy installed fs none = none
build_strategy installed fs (some found) =
    available (if is_filter_exist fs then apply_filters installed fs found else found)

-- ===== src/Resources/Broker.antt =====
-- packages/resources/src/resource-broker.ts: the registered resources and their contents.
pub mod Registered
use deliberum.Prelude.{
  String, Bool, true, false, ◌||◌, not, Option, none, some, List, [], ◌∷◌, map, ◌==◌, if◌then◌else◌,
  Map, get, set, get_or, contains, add_to_set, to_set,
}
use deliberum.Errors.{
  Result, ok, err, Exec, pure, ◌>>=◌, ◌>>◌, lift, invalid_resource_registration,
  resource_already_registered,
}
use deliberum.Protocol.Resources.{Resource, resource_schema}
use deliberum.Resources.Types.{InMemoryResourceContent, ResourceRegistration, base64_variants}

pub record InMemoryResourceBroker : Type 0 where
  pub resources_by_id : Map Resource
  pub content_by_data_ref : Map String

abbrev pub empty_broker : InMemoryResourceBroker
empty_broker = record { resources_by_id = []; content_by_data_ref = [] }

unfoldable pub is_there {ℓ} : {A : Type ℓ} → Option A → Bool
is_there none = false
is_there (some a) = true

unfoldable pub parse_resource : Resource → Result Resource
unfolding resource_schema
parse_resource r = if resource_schema r then ok r else err invalid_resource_registration

unfoldable pub data_refs : Resource → List String
unfolding base64_variants to_set
data_refs r = to_set (map (λ v. v.data_ref) (base64_variants r.variants))

unfoldable pub check_contents :
    List String → List String → Map String → List InMemoryResourceContent → Result (Unit {0})
check_contents refs seen existing [] = ok tt
check_contents refs seen existing (c ∷ cs) =
    let rest = check_contents refs (add_to_set seen c.data_ref) existing cs in
    if c.data_ref == ""
    then err invalid_resource_registration
    else if not (contains refs c.data_ref)
    then err invalid_resource_registration
    else if contains seen c.data_ref || is_there (get existing c.data_ref)
    then err invalid_resource_registration
    else rest

unfoldable pub validate_content_registration :
    Resource → List InMemoryResourceContent → Map String → Result (Unit {0})
unfolding check_contents data_refs
validate_content_registration r contents existing =
    check_contents (data_refs r) [] existing contents

unfoldable pub put_contents : Map String → List InMemoryResourceContent → Map String
unfolding set
put_contents m [] = m
put_contents m (c ∷ cs) = put_contents (set m c.data_ref c.base64) cs

abbrev pub require_new : Resource → Exec InMemoryResourceBroker (Unit {0})
require_new r b =
    if is_there (get b.resources_by_id r.id)
    then (err (resource_already_registered r.id), b)
    else (ok tt, b)

abbrev pub check_registration :
    Resource → List InMemoryResourceContent → Exec InMemoryResourceBroker (Unit {0})
check_registration r contents b =
    (validate_content_registration r contents b.content_by_data_ref, b)

-- The writes of a registration.
abbrev pub put_resource :
    Resource → List InMemoryResourceContent → Exec InMemoryResourceBroker Resource
put_resource r contents b = (
  ok r,
  record {
    resources_by_id = set b.resources_by_id r.id r;
    content_by_data_ref = put_contents b.content_by_data_ref contents;
  },
)

unfoldable pub register_resource : ResourceRegistration → Exec InMemoryResourceBroker Resource
register_resource registration = lift (parse_resource registration.resource) >>= λ r.
    require_new r
    >> check_registration r (get_or [] registration.contents)
    >> put_resource r (get_or [] registration.contents)

unfoldable pub get_resource : InMemoryResourceBroker → String → Option Resource
unfolding get
get_resource b id = get b.resources_by_id id

unfoldable pub list_resources : InMemoryResourceBroker → List Resource
list_resources b = map (λ e. e.1) b.resources_by_id

unfoldable pub get_explicit_in_memory_content : InMemoryResourceBroker → String → Option String
unfolding get
get_explicit_in_memory_content b data_ref = get b.content_by_data_ref data_ref

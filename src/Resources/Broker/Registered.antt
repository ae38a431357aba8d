-- ===== src/Resources/Broker/Registered.antt =====
-- registerResource of packages/resources/src/resource-broker.ts: what a registration changes.
use deliberum.Prelude.{
  String, ◌≡◌, refl, sym, ap, ◌∙◌, inl, inr, true, false, Option, none, some, List, [], ◌∷◌, eq_iff,
  eq_refl, ◌==◌, if◌then◌else◌, Bool-cases, Map, get, set, get-set, get_or, contains, add_to_set,
  In, contains→In, In→contains,
}
use mathlib.Core.Path.{subst}
use deliberum.Prelude.{In-add_to_set_old, In-add_to_set_new}
use deliberum.Errors.{Error, ok, err, Result-cases, ok_injective}
use deliberum.Protocol.Resources.{Resource, resource_schema}
use deliberum.Resources.Types.{InMemoryResourceContent, ResourceRegistration}
use deliberum.Resources.Broker.{
  InMemoryResourceBroker, is_there, parse_resource, data_refs, check_contents,
  validate_content_registration, put_contents, register_resource, get_resource,
  get_explicit_in_memory_content,
}

-- Every content has a reference of the resource that is not in use, each its own.
Fits : List String → List String → Map String → List InMemoryResourceContent → Type 0
Fits refs seen existing [] = Unit
Fits refs seen existing (c ∷ cs) =
    (contains refs c.data_ref ≡ true)
    × (contains seen c.data_ref ≡ false)
    × (is_there (get existing c.data_ref) ≡ false)
    × Fits refs (add_to_set seen c.data_ref) existing cs

module _ (refs : List String) (existing : Map String) where
  check_contents-Fits :
      (seen : List String) (cs : List InMemoryResourceContent)
      → check_contents refs seen existing cs ≡ ok tt
      → Fits refs seen existing cs
  unfolding check_contents Fits
  check_contents-Fits seen [] e = tt
  check_contents-Fits seen (c ∷ cs) e = elim (Bool-cases (c.data_ref == "")) [
    | inl bad ↦ cc (rw bad at e)
    | inr a ↦ elim (Bool-cases (contains refs c.data_ref)) [
      | inr bad ↦ cc (rw (a, bad) at e)
      | inl b ↦ elim (Bool-cases (contains seen c.data_ref)) [
        | inl bad ↦ cc (rw (a, b, bad) at e)
        | inr d ↦ elim (Bool-cases (is_there (get existing c.data_ref))) [
          | inl bad ↦ cc (rw (a, b, d, bad) at e)
          | inr f ↦
              (b, d, f, check_contents-Fits (add_to_set seen c.data_ref) cs (rw (a, b, d, f) at e))
        ]
      ]
    ]
  ]

  -- A reference that has been seen is not used again.
  not_seen_again :
      (k : String) (seen : List String) (cs : List InMemoryResourceContent)
      → Fits refs seen existing cs
      → contains seen k ≡ true
      → (c : InMemoryResourceContent) → In c cs
      → (c.data_ref == k) ≡ false
  unfolding Fits
  not_seen_again k seen [] fits there c m = elim m [ ]
  not_seen_again k seen (d ∷ cs) fits there c (inl q) = elim (Bool-cases (c.data_ref == k)) [
    | inr n ↦ n
    | inl y ↦
        let same : d.data_ref ≡ k =
          ap (λ (x : InMemoryResourceContent). x.data_ref) (sym q) ∙ (eq_iff c.data_ref k).0 y in
        cc (there, fits.1, same)
  ]
  not_seen_again k seen (d ∷ cs) fits there c (inr m) =
      not_seen_again k (add_to_set seen d.data_ref) cs fits.3
        (In→contains (add_to_set seen d.data_ref) k
          (In-add_to_set_old seen d.data_ref k (contains→In seen k there)))
        c m

module _ (refs : List String) (existing : Map String) where
  -- What the contents do not mention stays.
  put_contents-other :
      (m : Map String) (k : String) (cs : List InMemoryResourceContent)
      → ((c : InMemoryResourceContent) → In c cs → (c.data_ref == k) ≡ false)
      → get (put_contents m cs) k ≡ get m k
  unfolding put_contents
  put_contents-other m k [] other = refl
  put_contents-other m k (c ∷ cs) other =
      put_contents-other (set m c.data_ref c.base64) k cs (λ x n. other x (inr n))
      ∙ (get-set m c.data_ref k c.base64 ∙ rw (other c (inl refl)) refl)

  put_contents-In :
      (m : Map String) (seen : List String) (cs : List InMemoryResourceContent)
      → Fits refs seen existing cs
      → (c : InMemoryResourceContent) → In c cs
      → get (put_contents m cs) c.data_ref ≡ some c.base64
  unfolding put_contents Fits
  put_contents-In m seen [] fits c n = elim n [ ]
  put_contents-In m seen (d ∷ cs) fits c (inl q) = rw q (
      put_contents-other (set m d.data_ref d.base64) d.data_ref cs (
        not_seen_again refs existing d.data_ref (add_to_set seen d.data_ref) cs fits.3
          (In→contains (add_to_set seen d.data_ref) d.data_ref (In-add_to_set_new seen d.data_ref)))
      ∙ (get-set m d.data_ref d.data_ref d.base64 ∙ rw (eq_refl d.data_ref) refl))
  put_contents-In m seen (d ∷ cs) fits c (inr n) =
      put_contents-In (set m d.data_ref d.base64) (add_to_set seen d.data_ref) cs fits.3 c n

  Fits-In :
      (seen : List String) (cs : List InMemoryResourceContent)
      → Fits refs seen existing cs
      → (c : InMemoryResourceContent) → In c cs
      → In c.data_ref refs × (is_there (get existing c.data_ref) ≡ false)
  unfolding Fits
  Fits-In seen [] fits c n = elim n [ ]
  Fits-In seen (d ∷ cs) fits c (inl q) = rw q (contains→In refs d.data_ref fits.0, fits.2)
  Fits-In seen (d ∷ cs) fits c (inr n) = Fits-In (add_to_set seen d.data_ref) cs fits.3 c n

  put_contents-old :
      (seen : List String) (cs : List InMemoryResourceContent)
      → Fits refs seen existing cs
      → (k content : String) → get existing k ≡ some content
      → get (put_contents existing cs) k ≡ some content
  unfolding is_there
  put_contents-old seen cs fits k content found =
      put_contents-other existing k cs (λ c n. elim (Bool-cases (c.data_ref == k)) [
        | inr other ↦ other
        | inl same ↦
            let free = (Fits-In seen cs fits c n).1 in
            cc (
              subst (λ x. is_there (get existing x) ≡ false) ((eq_iff c.data_ref k).0 same) free,
              ap is_there found,
            )
      ])
      ∙ found

parsed_resource : (p q : Resource) → parse_resource p ≡ ok q → (p ≡ q) × (resource_schema p ≡ true)
unfolding parse_resource
parsed_resource p q e = elim (Bool-cases (resource_schema p)) [
  | inl y ↦ (ok_injective p q (rw y at e), y)
  | inr n ↦ cc (rw n at e)
]

no_entry : {A : Type 0} (o : Option A) → is_there o ≡ false → o ≡ none
unfolding is_there
no_entry none e = refl
no_entry (some a) e = cc e

module _ (registration : ResourceRegistration) (b : InMemoryResourceBroker) where
  abbrev given : List InMemoryResourceContent
  given = get_or [] registration.contents

  -- The three checks, and the state that is written after them.
  registered :
      (r : Resource)
      → (register_resource registration b).0 ≡ ok r
      → (r ≡ registration.resource)
        × (resource_schema r ≡ true)
        × (is_there (get b.resources_by_id r.id) ≡ false)
        × (validate_content_registration r given b.content_by_data_ref ≡ ok tt)
        × ((register_resource registration b).1 ≡ record {
          resources_by_id = set b.resources_by_id r.id r;
          content_by_data_ref = put_contents b.content_by_data_ref given;
        })
  unfolding register_resource
  registered r done = elim (Result-cases (parse_resource registration.resource)) [
    | inr bad ↦ cc (rw (bad.1) at done)
    | inl p ↦
        let (same, fine) = parsed_resource registration.resource p.0 p.1 in
        elim (Bool-cases (is_there (get b.resources_by_id (p.0).id))) [
          | inl bad ↦ cc (rw (p.1, bad) at done)
          | inr new ↦
              elim (Result-cases (validate_content_registration p.0 given b.content_by_data_ref)) [
                | inr bad ↦ cc (rw (p.1, new, bad.1) at done)
                | inl checked ↦
                    let is : p.0 ≡ r = ok_injective p.0 r (rw (p.1, new, checked.1) at done) in
                    (
                      sym (same ∙ is),
                      subst (λ x. resource_schema x ≡ true) (same ∙ is) fine,
                      subst (λ (x : Resource). is_there (get b.resources_by_id x.id) ≡ false) is
                          new,
                      subst
                          (λ x. validate_content_registration x given b.content_by_data_ref ≡ ok tt)
                          is checked.1,
                      rw (p.1, new, checked.1, is) refl,
                    )
              ]
        ]
  ]

  -- A registration that throws changes nothing.
  pub register_resource_error :
      (e : Error)
      → (register_resource registration b).0 ≡ err e
      → (register_resource registration b).1 ≡ b
  unfolding register_resource
  register_resource_error e failed = elim (Result-cases (parse_resource registration.resource)) [
    | inr bad ↦ rw (bad.1) refl
    | inl p ↦ elim (Bool-cases (is_there (get b.resources_by_id (p.0).id))) [
      | inl bad ↦ rw (p.1, bad) refl
      | inr new ↦
          elim (Result-cases (validate_content_registration p.0 given b.content_by_data_ref)) [
            | inr bad ↦ rw (p.1, new, bad.1) refl
            | inl checked ↦ cc (rw (p.1, new, checked.1) at failed)
          ]
    ]
  ]

  -- A registration that returns adds its resource under a new id and each of its contents under a
  -- reference of one of its Base64 variants, and changes no resource and no contents that were
  -- there.
  pub register_resource-adds :
      (r : Resource)
      → (register_resource registration b).0 ≡ ok r
      → let later = (register_resource registration b).1 in
        (r ≡ registration.resource)
        × (resource_schema r ≡ true)
        × (get_resource b r.id ≡ none)
        × ((id : String)
            → get_resource later id ≡ (if r.id == id then some r else get_resource b id))
        × ((k content : String)
            → get_explicit_in_memory_content b k ≡ some content
            → get_explicit_in_memory_content later k ≡ some content)
        × ((c : InMemoryResourceContent)
            → In c (get_or [] registration.contents)
            → In c.data_ref (data_refs r)
              × (get_explicit_in_memory_content later c.data_ref ≡ some c.base64))
  unfolding get_resource get_explicit_in_memory_content validate_content_registration
  register_resource-adds r done =
      let (same, fine, new, checked, after) = registered r done in
      let refs = data_refs r in
      let old = b.content_by_data_ref in
      let fits = check_contents-Fits refs old [] given checked in
      (
        same,
        fine,
        no_entry (get b.resources_by_id r.id) new,
        λ id.
            ap (λ (x : InMemoryResourceBroker). get x.resources_by_id id) after
            ∙ get-set b.resources_by_id r.id id r,
        λ k content found.
            ap (λ (x : InMemoryResourceBroker). get x.content_by_data_ref k) after
            ∙ put_contents-old refs old [] given fits k content found,
        λ c n. (
          (Fits-In refs old [] given fits c n).0,
          ap (λ (x : InMemoryResourceBroker). get x.content_by_data_ref c.data_ref) after
              ∙ put_contents-In refs old old [] given fits c n,
        ),
      )

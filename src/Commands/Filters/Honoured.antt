-- ===== src/Commands/Filters/Honoured.antt =====
-- A filter that is supplied and passes the check is honoured.
use openclaw_hass_node.Prelude.{
  String, ◌<>◌, ◌≡◌, refl, sym, ap, ◌∙◌, Bool, true, false, not, ◌&&◌, ◌||◌, Option, none, some,
  is_some, List, [], ◌∷◌, if◌then◌else◌, keep, arith, inl, inr, Bool-cases,
}
use openclaw_hass_node.Value.{Value, null, bool, int, float, str, list, dict, Fields, get}
use openclaw_hass_node.Commands.Filters.{
  entity_registry_filters, filter_value, is_unusable, first_unusable, unknown_or,
  filter_param_error, active, text_is, text_starts, select_entities, filter_entity_registry,
}

-- Whether a filter is supplied.
abbrev pub supplied : Fields → String → Bool
supplied params name = is_some (get name params)

-- An entry is wanted if it satisfies every filter that is supplied; what is no dict satisfies none.
abbrev pub is_wanted : Fields → Value → Bool
is_wanted params (dict e) =
    (not (supplied params "domain")
      || text_starts (get "entity_id" e) (filter_value (get "domain" params) <> "."))
    && (not (supplied params "platform")
        || text_is (get "platform" e) (filter_value (get "platform" params)))
    && (not (supplied params "area_id")
        || text_is (get "area_id" e) (filter_value (get "area_id" params)))
    && (not (supplied params "device_id")
        || text_is (get "device_id" e) (filter_value (get "device_id" params)))
is_wanted params v =
    not (supplied params "domain")
    && not (supplied params "platform")
    && not (supplied params "area_id")
    && not (supplied params "device_id")

usable-active : (o : Option Value) → is_unusable o ≡ false → active (filter_value o) ≡ is_some o
unfolding filter_value
usable-active none h = refl
usable-active (some (str s)) h = ground arith
usable-active (some null) h = cc
usable-active (some (bool b)) h = cc
usable-active (some (int b)) h = cc
usable-active (some (float b)) h = cc
usable-active (some (list b)) h = cc
usable-active (some (dict b)) h = cc

known :
    (params : Fields) (names extra ks : List String)
    → unknown_or params names extra ks ≡ none
    → first_unusable params names ≡ none
known params names extra [] h = h
known params names extra (k ∷ ks) h = cc

keep_all : (p : Value → Bool) (xs : List Value) → ((x : Value) → p x ≡ true) → keep p xs ≡ xs
keep_all p [] h = refl
keep_all p (x ∷ xs) h = let e = h x in let t = keep_all p xs h in ground (arith, e, t)

-- One entry: the four tests of the loop, against the four of `is_wanted`.
entry_step :
    (d p a v td tp ta tv : Bool) (x : Value) (rest : List Value)
    → (if d && not td
        then rest
        else if p && not tp
        then rest
        else if a && not ta
        then rest
        else if v && not tv
        then rest
        else x ∷ rest)
      ≡ (if (not d || td) && (not p || tp) && (not a || ta) && (not v || tv)
          then x ∷ rest
          else rest)
entry_step d p a v td tp ta tv x rest = ground arith

-- The loop, with the four filters and whether each is active.
abbrev wanted_entry : String → String → String → String → Value → Bool
wanted_entry domain platform area_id device_id (dict e) =
    (not (active domain) || text_starts (get "entity_id" e) (domain <> "."))
    && (not (active platform) || text_is (get "platform" e) platform)
    && (not (active area_id) || text_is (get "area_id" e) area_id)
    && (not (active device_id) || text_is (get "device_id" e) device_id)
wanted_entry domain platform area_id device_id v = false

select_entities-keep :
    (domain platform area_id device_id : String) (entries : List Value)
    → select_entities domain platform area_id device_id entries
      ≡ keep (wanted_entry domain platform area_id device_id) entries
unfolding select_entities
select_entities-keep domain platform area_id device_id [] = refl
select_entities-keep domain platform area_id device_id (dict e ∷ entries) =
    entry_step (active domain) (active platform) (active area_id) (active device_id)
      (text_starts (get "entity_id" e) (domain <> ".")) (text_is (get "platform" e) platform)
      (text_is (get "area_id" e) area_id) (text_is (get "device_id" e) device_id) (dict e)
      (select_entities domain platform area_id device_id entries)
    ∙ ap
        (λ (rest : List Value).
          if wanted_entry domain platform area_id device_id (dict e) then dict e ∷ rest else rest)
        (select_entities-keep domain platform area_id device_id entries)
select_entities-keep domain platform area_id device_id (null ∷ entries) =
    select_entities-keep domain platform area_id device_id entries
select_entities-keep domain platform area_id device_id (bool b ∷ entries) =
    select_entities-keep domain platform area_id device_id entries
select_entities-keep domain platform area_id device_id (int b ∷ entries) =
    select_entities-keep domain platform area_id device_id entries
select_entities-keep domain platform area_id device_id (float b ∷ entries) =
    select_entities-keep domain platform area_id device_id entries
select_entities-keep domain platform area_id device_id (str b ∷ entries) =
    select_entities-keep domain platform area_id device_id entries
select_entities-keep domain platform area_id device_id (list b ∷ entries) =
    select_entities-keep domain platform area_id device_id entries

keep_cong :
    (p q : Value → Bool) (xs : List Value) → ((x : Value) → p x ≡ q x) → keep p xs ≡ keep q xs
keep_cong p q [] h = refl
keep_cong p q (x ∷ xs) h = let e = h x in let t = keep_cong p q xs h in ground (arith, e, t)

usable :
    (params : Fields) (name : String) (names : List String)
    → first_unusable params (name ∷ names) ≡ none
    → (is_unusable (get name params) ≡ false) × (first_unusable params names ≡ none)
usable params name names h = elim (Bool-cases (is_unusable (get name params))) [
  | inl e ↦ ground arith
  | inr e ↦ (e, ground arith)
]

-- What the check of the parameters gives: each filter is active exactly if it is supplied.
filters_active :
    (params : Fields) (extra : List String)
    → filter_param_error params entity_registry_filters extra ≡ none
    → (active (filter_value (get "domain" params)) ≡ supplied params "domain")
      × (active (filter_value (get "platform" params)) ≡ supplied params "platform")
      × (active (filter_value (get "area_id" params)) ≡ supplied params "area_id")
      × (active (filter_value (get "device_id" params)) ≡ supplied params "device_id")
unfolding filter_param_error
filters_active params extra h =
    let (a, r) =
      usable params "domain" ("platform" ∷ "area_id" ∷ "device_id" ∷ [])
        (known params entity_registry_filters extra _ h) in
    let (b, s) = usable params "platform" ("area_id" ∷ "device_id" ∷ []) r in
    let (c, t) = usable params "area_id" ("device_id" ∷ []) s in
    let (d, u) = usable params "device_id" [] t in
    (
      usable-active (get "domain" params) a,
      usable-active (get "platform" params) b,
      usable-active (get "area_id" params) c,
      usable-active (get "device_id" params) d,
    )

-- No filter is active.
abbrev idle : String → String → String → String → Bool
idle domain platform area_id device_id =
    not (active domain) && not (active platform) && not (active area_id) && not (active device_id)

-- The four tests with the supplied filters in place of the active ones.
same_tests :
    (d p a v d' p' a' v' td tp ta tv : Bool)
    → d ≡ d'
    → p ≡ p'
    → a ≡ a'
    → v ≡ v'
    → ((not d' || td) && (not p' || tp) && (not a' || ta) && (not v' || tv))
      ≡ ((not d || td) && (not p || tp) && (not a || ta) && (not v || tv))
same_tests d p a v d' p' a' v' td tp ta tv e f g h = ground arith

no_tests :
    (d p a v d' p' a' v' : Bool)
    → d ≡ d'
    → p ≡ p'
    → a ≡ a'
    → v ≡ v'
    → (not d' && not p' && not a' && not v') ≡ (not d && not p && not a && not v)
no_tests d p a v d' p' a' v' e f g h = ground arith

idle_tests :
    (d p a v td tp ta tv : Bool)
    → (not d && not p && not a && not v) ≡ true
    → ((not d || td) && (not p || tp) && (not a || ta) && (not v || tv)) ≡ true
idle_tests d p a v td tp ta tv e = ground arith

-- What is wanted, by the active filters.
abbrev wanted_by : String → String → String → String → Value → Bool
wanted_by domain platform area_id device_id (dict e) =
    wanted_entry domain platform area_id device_id (dict e)
wanted_by domain platform area_id device_id v = idle domain platform area_id device_id

wanted_by-idle :
    (domain platform area_id device_id : String) (x : Value)
    → idle domain platform area_id device_id ≡ true
    → wanted_by domain platform area_id device_id x ≡ true
wanted_by-idle domain platform area_id device_id (dict e) i = idle_tests _ _ _ _ _ _ _ _ i
wanted_by-idle domain platform area_id device_id null i = i
wanted_by-idle domain platform area_id device_id (bool b) i = i
wanted_by-idle domain platform area_id device_id (int b) i = i
wanted_by-idle domain platform area_id device_id (float b) i = i
wanted_by-idle domain platform area_id device_id (str b) i = i
wanted_by-idle domain platform area_id device_id (list b) i = i

wanted_by-wanted_entry :
    (domain platform area_id device_id : String) (x : Value)
    → idle domain platform area_id device_id ≡ false
    → wanted_entry domain platform area_id device_id x
      ≡ wanted_by domain platform area_id device_id x
wanted_by-wanted_entry domain platform area_id device_id (dict e) i = refl
wanted_by-wanted_entry domain platform area_id device_id null i = sym i
wanted_by-wanted_entry domain platform area_id device_id (bool b) i = sym i
wanted_by-wanted_entry domain platform area_id device_id (int b) i = sym i
wanted_by-wanted_entry domain platform area_id device_id (float b) i = sym i
wanted_by-wanted_entry domain platform area_id device_id (str b) i = sym i
wanted_by-wanted_entry domain platform area_id device_id (list b) i = sym i

by_idle :
    (domain platform area_id device_id : String) (entries : List Value)
    → (if idle domain platform area_id device_id
        then entries
        else select_entities domain platform area_id device_id entries)
      ≡ keep (wanted_by domain platform area_id device_id) entries
by_idle domain platform area_id device_id entries =
    elim (Bool-cases (idle domain platform area_id device_id)) [
      | inl i ↦
          ap
            (λ (b : Bool).
              if b then entries else select_entities domain platform area_id device_id entries)
            i
          ∙ sym (keep_all _ entries (λ x. wanted_by-idle domain platform area_id device_id x i))
      | inr i ↦
          ap
            (λ (b : Bool).
              if b then entries else select_entities domain platform area_id device_id entries)
            i
          ∙ select_entities-keep domain platform area_id device_id entries
          ∙ keep_cong _ _ entries
              (λ x. wanted_by-wanted_entry domain platform area_id device_id x i)
    ]

abbrev AllActive : Fields → Type 0
AllActive params =
    (active (filter_value (get "domain" params)) ≡ supplied params "domain")
    × (active (filter_value (get "platform" params)) ≡ supplied params "platform")
    × (active (filter_value (get "area_id" params)) ≡ supplied params "area_id")
    × (active (filter_value (get "device_id" params)) ≡ supplied params "device_id")

wanted_by-is_wanted :
    (params : Fields)
    → AllActive params
    → (x : Value)
    → wanted_by
        (filter_value (get "domain" params))
        (filter_value (get "platform" params))
        (filter_value (get "area_id" params))
        (filter_value (get "device_id" params))
        x
      ≡ is_wanted params x
wanted_by-is_wanted params (a, b, c, d) (dict e) = sym (same_tests _ _ _ _ _ _ _ _ _ _ _ _ a b c d)
wanted_by-is_wanted params (a, b, c, d) null = sym (no_tests _ _ _ _ _ _ _ _ a b c d)
wanted_by-is_wanted params (a, b, c, d) (bool x) = sym (no_tests _ _ _ _ _ _ _ _ a b c d)
wanted_by-is_wanted params (a, b, c, d) (int x) = sym (no_tests _ _ _ _ _ _ _ _ a b c d)
wanted_by-is_wanted params (a, b, c, d) (float x) = sym (no_tests _ _ _ _ _ _ _ _ a b c d)
wanted_by-is_wanted params (a, b, c, d) (str x) = sym (no_tests _ _ _ _ _ _ _ _ a b c d)
wanted_by-is_wanted params (a, b, c, d) (list x) = sym (no_tests _ _ _ _ _ _ _ _ a b c d)

-- Whoever supplies filters that pass the check gets exactly the entries, in their order, that satisfy
-- all of them: the domain as the prefix of the entity id, and the platform, the area and the device
-- as the entry has them. A call without filters gets all the entries.
pub filter_entity_registry-keep :
    (params : Fields) (extra : List String) (entries : List Value)
    → filter_param_error params entity_registry_filters extra ≡ none
    → filter_entity_registry entries params ≡ keep (is_wanted params) entries
unfolding filter_entity_registry
filter_entity_registry-keep params extra entries h =
    let domain = filter_value (get "domain" params) in
    let platform = filter_value (get "platform" params) in
    let area_id = filter_value (get "area_id" params) in
    let device_id = filter_value (get "device_id" params) in
    by_idle domain platform area_id device_id entries
    ∙ keep_cong (wanted_by domain platform area_id device_id) (is_wanted params) entries
        (wanted_by-is_wanted params (filters_active params extra h))

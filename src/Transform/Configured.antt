-- ===== src/Transform/Configured.antt =====
-- What the configured transforms make of one header.
use rust_api_gateway.Base.{
  ◌≡◌, refl, ap, ◌∙◌, Bool, false, ◌||◌, Option, none, some, List, [], ◌∷◌, Str, HashMap, str_eq,
  to_ascii_lowercase, arith, if◌then◌else◌, Option-cases, inl, inr,
}
use rust_api_gateway.Config.{HeaderTransforms}
use rust_api_gateway.Headers.{Http, HttpLaws}
use rust_api_gateway.Transform.{remove_all, insert_valid, add_all, apply_transforms}

module _ (h : Http) where
  -- The configured text is a header name, and that of the header.
  abbrev pub names : Str → Str → Bool
  names s name = elim (h.name_from_bytes name) [
    | none ↦ false
    | some n ↦ str_eq (h.as_str n) (to_ascii_lowercase s)
  ]

  abbrev pub removed_by : List Str → Str → Bool
  removed_by [] s = false
  removed_by (name ∷ names') s = names s name || removed_by names' s

  -- The value after the additions: that of the last entry with a valid value that names the header.
  abbrev pub value_after : HashMap Str → Str → Option h.HeaderValue → Option h.HeaderValue
  value_after [] s v = v
  value_after ((name, value) ∷ rest) s v =
      value_after rest s
        (elim (h.value_from_str value) [ none ↦ v | some w ↦ if names s name then some w else v ])

  module _ (laws : HttpLaws h) where
    remove-get :
        (m : h.HeaderMap) (name s : Str)
        → h.get (elim (h.name_from_bytes name) [ none ↦ m | some n ↦ h.remove m n ]) s
          ≡ (if names s name then none else h.get m s)
    remove-get m name s = elim (Option-cases (h.name_from_bytes name)) [
      | inl invalid ↦ rw (invalid, names) refl
      | inr (n, e) ↦ rw (e, names) (laws.get_remove m n s)
    ]

    remove_all-get :
        (m : h.HeaderMap) (l : List Str) (s : Str)
        → h.get (remove_all h m l) s ≡ (if removed_by l s then none else h.get m s)
    unfolding remove_all
    remove_all-get m [] s = refl
    remove_all-get m (name ∷ l) s = ground (
      arith,
      remove_all-get (elim (h.name_from_bytes name) [ none ↦ m | some n ↦ h.remove m n ]) l s,
      remove-get m name s,
    )

    insert_valid-get :
        (m : h.HeaderMap) (name value s : Str)
        → h.get (insert_valid h m (h.name_from_bytes name) (h.value_from_str value)) s
          ≡ (elim (h.value_from_str value) [
            | none ↦ h.get m s
            | some w ↦ if names s name then some w else h.get m s
          ])
    insert_valid-get m name value s = elim (Option-cases (h.name_from_bytes name)) [
      | inl invalid ↦ elim (Option-cases (h.value_from_str value)) [
        | inl bad ↦ rw (invalid, bad, names) refl
        | inr (v, f) ↦ rw f (rw (invalid, names) refl)
      ]
      | inr (n, e) ↦ elim (Option-cases (h.value_from_str value)) [
        | inl bad ↦ rw (e, bad) refl
        | inr (v, f) ↦ rw f (rw (e, names) (laws.get_insert m n v s))
      ]
    ]

    add_all-get :
        (m : h.HeaderMap) (l : HashMap Str) (s : Str)
        → h.get (add_all h m l) s ≡ value_after l s (h.get m s)
    unfolding add_all
    add_all-get m [] s = refl
    add_all-get m ((name, value) ∷ rest) s =
        add_all-get (insert_valid h m (h.name_from_bytes name) (h.value_from_str value)) rest s
        ∙ ap (value_after rest s) (insert_valid-get m name value s)

    -- After the transforms a header has the value of the last valid addition that names it; with none,
    -- it is gone if a removal names it, and as it was otherwise. An addition outlives a removal.
    pub apply_transforms-get :
        (m : h.HeaderMap) (t : HeaderTransforms) (s : Str)
        → h.get (apply_transforms h m t) s
          ≡ value_after t.add s (if removed_by t.remove s then none else h.get m s)
    unfolding apply_transforms
    apply_transforms-get m t s =
        add_all-get (remove_all h m t.remove) t.add s
        ∙ ap (value_after t.add s) (remove_all-get m t.remove s)

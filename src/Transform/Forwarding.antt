-- ===== src/Transform/Forwarding.antt =====
-- Which headers are forwarded to an upstream and back to the client.
use rust_api_gateway.Base.{
  ℕ, ◌≡◌, ◌≢◌, refl, ap, ap₂, ◌∙◌, true, false, none, some, List, [], ◌∷◌, Str, str, str_eq,
  str_eq_iff, ascii_lowercase, to_ascii_lowercase, arith, if◌then◌else◌, inl, inr, texts, All,
  Option-cases,
}
use rust_api_gateway.Headers.{Http, HttpLaws, first_value, or_else, is_visible, is_plain_name}
use rust_api_gateway.Transform.{
  hop_by_hop, any_ignoring_case, is_hop_by_hop, text_of, get_str, copy_end_to_end, set,
  forwarded_for, forwarded_request_headers, filtered_response_headers,
}

ascii_lowercase_idem : (c : ℕ) → ascii_lowercase (ascii_lowercase c) ≡ ascii_lowercase c
unfolding ascii_lowercase
ascii_lowercase_idem c = ground arith

lower_idem : (s : Str) → to_ascii_lowercase (to_ascii_lowercase s) ≡ to_ascii_lowercase s
lower_idem [] = refl
lower_idem (c ∷ s) = ap₂ ◌∷◌ (ascii_lowercase_idem c) (lower_idem s)

any-lower :
    (hs : List Str) (s : Str) → any_ignoring_case hs (to_ascii_lowercase s) ≡ any_ignoring_case hs s
unfolding any_ignoring_case
any-lower [] s = refl
any-lower (h ∷ hs) s = rw (lower_idem s, any-lower hs s) refl

-- Whether a name is hop-by-hop does not depend on its case.
is_hop_by_hop-lower : (s : Str) → is_hop_by_hop (to_ascii_lowercase s) ≡ is_hop_by_hop s
unfolding is_hop_by_hop
is_hop_by_hop-lower s = any-lower hop_by_hop s

end_to_end_for : is_hop_by_hop (str "x-forwarded-for") ≡ false
unfolding is_hop_by_hop any_ignoring_case texts
end_to_end_for = refl

end_to_end_ip : is_hop_by_hop (str "x-real-ip") ≡ false
unfolding is_hop_by_hop any_ignoring_case texts
end_to_end_ip = refl

end_to_end_host : is_hop_by_hop (str "x-forwarded-host") ≡ false
unfolding is_hop_by_hop any_ignoring_case texts
end_to_end_host = refl

end_to_end_proto : is_hop_by_hop (str "x-forwarded-proto") ≡ false
unfolding is_hop_by_hop any_ignoring_case texts
end_to_end_proto = refl

-- The four headers that the gateway writes itself.
abbrev pub written : List Str
written =
    str "x-forwarded-for" ∷ str "x-real-ip" ∷ str "x-forwarded-host" ∷ str "x-forwarded-proto" ∷ []

module _ (h : Http) (laws : HttpLaws h) where
  copy_end_to_end-get :
      (out : h.HeaderMap) (l : List (h.HeaderName × h.HeaderValue)) (s : Str)
      → h.get (copy_end_to_end h out l) s
        ≡ or_else
            (h.get out s)
            (if is_hop_by_hop s then none else first_value h (to_ascii_lowercase s) l)
  unfolding copy_end_to_end
  copy_end_to_end-get out [] s = ground arith
  copy_end_to_end-get out ((n, v) ∷ l) s = ground (
    arith,
    copy_end_to_end-get out l s,
    copy_end_to_end-get (h.append out n v) l s,
    laws.get_append out n v s,
    str_eq_iff (h.as_str n) (to_ascii_lowercase s),
    is_hop_by_hop-lower s,
  )

  -- A response is returned with its end-to-end headers as they came and without the hop-by-hop ones.
  pub filtered_response_headers-get :
      (incoming : h.HeaderMap) (s : Str)
      → h.get (filtered_response_headers h incoming) s
        ≡ (if is_hop_by_hop s then none else h.get incoming s)
  unfolding filtered_response_headers
  filtered_response_headers-get incoming s = ground (
    arith,
    copy_end_to_end-get h.new (h.iter incoming) s,
    laws.get_new s,
    laws.get_iter incoming s,
  )

  -- `set` under a plain name writes a value that is visible text.
  set-get :
      (m : h.HeaderMap) (name value s : Str) (v : h.HeaderValue)
      → is_plain_name name ≡ true
      → h.value_from_str value ≡ some v
      → h.get (set h m name value) s
        ≡ (if str_eq name (to_ascii_lowercase s) then some v else h.get m s)
  unfolding set
  set-get m name value s v p e =
      rw (e, set)
        (laws.get_insert m (h.name_from_static name) v s
          ∙ ap (λ n. if str_eq n (to_ascii_lowercase s) then some v else h.get m s)
              (laws.from_static_plain name p))

  -- A name other than that of the header is not touched.
  pub set-get_ne :
      (m : h.HeaderMap) (name value s : Str)
      → is_plain_name name ≡ true
      → name ≢ to_ascii_lowercase s
      → h.get (set h m name value) s ≡ h.get m s
  unfolding set
  set-get_ne m name value s p ne = elim (Option-cases (h.value_from_str value)) [
    | inl invalid ↦ rw (invalid, set) refl
    | inr (v, e) ↦
        set-get m name value s v p e ∙ ground (arith, str_eq_iff name (to_ascii_lowercase s))
  ]

  -- `set` of a visible text under a plain name can be read back.
  pub set-get_str :
      (m : h.HeaderMap) (name value : Str)
      → is_plain_name name ≡ true
      → to_ascii_lowercase name ≡ name
      → is_visible value ≡ true
      → get_str h (set h m name value) name ≡ some value
  set-get_str m name value p l vis =
      let (v, from, to) = laws.from_str_visible value vis in
      let found : h.get (set h m name value) name ≡ some v =
        set-get m name value name v p from
        ∙ ground (arith, str_eq_iff name (to_ascii_lowercase name)) in
      ap (text_of h) found ∙ to

  module _ (incoming : h.HeaderMap) (client_ip host scheme : Str) where
    abbrev xff : Str
    xff = forwarded_for h (get_str h incoming (str "x-forwarded-for")) client_ip

    -- A header that the gateway does not write is forwarded as it came, unless it is hop-by-hop.
    pub forwarded_request_headers-get :
        (s : Str)
        → All (λ n. n ≢ to_ascii_lowercase s) written
        → h.get (forwarded_request_headers h incoming client_ip host scheme) s
          ≡ (if is_hop_by_hop s then none else h.get incoming s)
    unfolding forwarded_request_headers
    forwarded_request_headers-get s (a, (b, (c, (d, _)))) =
        set-get_ne _ (str "x-forwarded-proto") scheme s refl d
        ∙ set-get_ne _ (str "x-forwarded-host") host s refl c
        ∙ set-get_ne _ (str "x-real-ip") client_ip s refl b
        ∙ set-get_ne _ (str "x-forwarded-for") xff s refl a
        ∙ ground (
          arith,
          copy_end_to_end-get h.new (h.iter incoming) s,
          laws.get_new s,
          laws.get_iter incoming s,
        )

    -- The headers that forwarded_request_headers makes of those of a client hold no hop-by-hop header, in
    -- any case of letters. What the route's transforms add to them afterwards is not meant.
    pub forwarded_request_headers-hop_by_hop :
        (s : Str)
        → is_hop_by_hop s ≡ true
        → h.get (forwarded_request_headers h incoming client_ip host scheme) s ≡ none
    forwarded_request_headers-hop_by_hop s hop =
        let apart : (n : Str) → is_hop_by_hop n ≡ false → n ≢ to_ascii_lowercase s =
          λ n end e. absurd (ground (arith, is_hop_by_hop-lower s, ap is_hop_by_hop e)) in
        forwarded_request_headers-get s (
          apart (str "x-forwarded-for") end_to_end_for,
          (
            apart (str "x-real-ip") end_to_end_ip,
            (
              apart (str "x-forwarded-host") end_to_end_host,
              (apart (str "x-forwarded-proto") end_to_end_proto, tt),
            ),
          ),
        )
        ∙ rw hop refl

    -- The upstream is told the client's address, appended to the chain that the request brought, and
    -- the host and the scheme, where these are visible text.
    pub forwarded_request_headers-written :
        is_visible xff ≡ true
        → is_visible client_ip ≡ true
        → is_visible host ≡ true
        → is_visible scheme ≡ true
        → let out = forwarded_request_headers h incoming client_ip host scheme in
          (get_str h out (str "x-forwarded-for") ≡ some xff)
          × (get_str h out (str "x-real-ip") ≡ some client_ip)
          × (get_str h out (str "x-forwarded-host") ≡ some host)
          × (get_str h out (str "x-forwarded-proto") ≡ some scheme)
    unfolding forwarded_request_headers ascii_lowercase
    forwarded_request_headers-written vx vc vh vs = (
      ap (text_of h) (
            set-get_ne _ (str "x-forwarded-proto") scheme (str "x-forwarded-for") refl (λ e. cc)
            ∙ set-get_ne _ (str "x-forwarded-host") host (str "x-forwarded-for") refl (λ e. cc)
            ∙ set-get_ne _ (str "x-real-ip") client_ip (str "x-forwarded-for") refl (λ e. cc))
          ∙ set-get_str _ (str "x-forwarded-for") xff refl refl vx,
      ap (text_of h) (
            set-get_ne _ (str "x-forwarded-proto") scheme (str "x-real-ip") refl (λ e. cc)
            ∙ set-get_ne _ (str "x-forwarded-host") host (str "x-real-ip") refl (λ e. cc))
          ∙ set-get_str _ (str "x-real-ip") client_ip refl refl vc,
      ap (text_of h)
            (set-get_ne _ (str "x-forwarded-proto") scheme (str "x-forwarded-host") refl (λ e. cc))
          ∙ set-get_str _ (str "x-forwarded-host") host refl refl vh,
      set-get_str _ (str "x-forwarded-proto") scheme refl refl vs,
    )

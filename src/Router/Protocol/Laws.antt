-- ===== src/Router/Protocol/Laws.antt =====
-- The names of protocols, and that a protocol which is chosen is one that the channel serves.
use mathlib.Core.List.{Memᴰ}
use agent_proxy_rust.Common.{
  String, Option, none, some, Bool, true, false, List, [], ◌∷◌, ◌≡◌, refl, ◌⊎◌, inl, inr, ◌↔◌,
  arith, str_eq, eq_iff, eq_refl, find, is_blank, is_empty, Bool-cases, sym, ◌∙◌, find_total,
  find_sound, any-mem, subst, ap, Option-cases, if◌then◌else◌,
}
use agent_proxy_rust.Core.Error.{ok, err, internal, >>=-eq-ok, ok_or, ◌<>◌, ProxyError}
use agent_proxy_rust.Core.Types.{
  ApiFormat, anthropic_messages, openai_chat, openai_responses, future,
}
use agent_proxy_rust.Router.Protocol.{
  ProtocolEntry, protocol_to_str, parse_protocol, serves, fallback, passthrough,
  resolve_target_protocol, resolve_upstream_url, allows, compatible_protocol,
}

is_blank-eq_false : (s t : String) → is_blank t ≡ false → str_eq s t ≡ true → is_blank s ≡ false
is_blank-eq_false s t b h = rw ((eq_iff s t).0 h) b

parse_protocol_sound :
    (s : String) (format : ApiFormat)
    → parse_protocol s ≡ ok format
    → (is_blank s ≡ false) × (protocol_to_str format ≡ s)
unfolding parse_protocol
parse_protocol_sound s format h = ground (
  arith,
  eq_iff s "anthropic_messages",
  eq_iff s "openai_chat",
  eq_iff s "openai_responses",
  is_blank-eq_false s "anthropic_messages" refl,
  is_blank-eq_false s "openai_chat" refl,
  is_blank-eq_false s "openai_responses" refl,
)

parse_protocol_complete :
    (s : String) (format : ApiFormat)
    → is_blank s ≡ false
    → protocol_to_str format ≡ s
    → parse_protocol s ≡ ok format
unfolding parse_protocol
parse_protocol_complete s anthropic_messages b h = rw (← h)
parse_protocol_complete s openai_chat b h = rw (← h)
parse_protocol_complete s openai_responses b h = rw (← h)
parse_protocol_complete s (future n) b h = cc (rw (← h) at b)

-- Parsing gives a format exactly for the name that the format prints as, where that is not empty.
pub parse_protocol_iff :
    (s : String) (format : ApiFormat)
    → (parse_protocol s ≡ ok format) ↔ ((is_blank s ≡ false) × (protocol_to_str format ≡ s))
parse_protocol_iff s format =
    (parse_protocol_sound s format, λ h. parse_protocol_complete s format h.0 h.1)

pub ok-injective : {A : Type 0} {a b : A} → ok a ≡ ok b → a ≡ b
ok-injective h = cc

-- A format that the channel has an entry for.
abbrev pub Served : List ProtocolEntry → ApiFormat → Type 0
Served protocols format =
    (is_blank (protocol_to_str format) ≡ false) × (serves (protocol_to_str format) protocols ≡ true)

fallback-Served :
    (protocols : List ProtocolEntry) (format : ApiFormat)
    → fallback protocols ≡ ok format
    → Served protocols format
unfolding fallback
fallback-Served [] format h = cc
fallback-Served (e ∷ es) format h = elim (Bool-cases (is_blank e.protocol)) [
  | inl blank ↦ cc (rw blank at h)
  | inr named ↦
      let (b, printed) = parse_protocol_sound e.protocol format (rw named at h) in
      rw printed (b, rw eq_refl refl)
]

passthrough-Served :
    (detected : Option ApiFormat) (protocols : List ProtocolEntry) (format : ApiFormat)
    → passthrough detected protocols ≡ ok format
    → Served protocols format
unfolding passthrough
passthrough-Served none protocols format h = fallback-Served protocols format h
passthrough-Served (some df) protocols format h = ground (arith, fallback-Served protocols format)

passthrough_client :
    (protocols : List ProtocolEntry) (df : ApiFormat)
    → Served protocols df
    → passthrough (some df) protocols ≡ ok df
unfolding passthrough
passthrough_client protocols df (b, served) = rw (b, served)

-- The protocol that is resolved for a request has an entry in the channel; it is the forced one if
-- one is forced, and otherwise the client's if the channel serves that.
pub resolve_target_protocol-Served :
    (force : Option String) (detected : Option ApiFormat) (protocols : List ProtocolEntry)
    (format : ApiFormat)
    → resolve_target_protocol force detected protocols ≡ ok format
    → Served protocols format
      × ((fp : String) → force ≡ some fp → protocol_to_str format ≡ fp)
      × ((df : ApiFormat) → force ≡ none → detected ≡ some df → Served protocols df → format ≡ df)
unfolding resolve_target_protocol
resolve_target_protocol-Served none detected protocols format h = (
  passthrough-Served detected protocols format h,
  λ fp e. cc,
  λ df e d served. ok-injective (sym h ∙ (rw d (passthrough_client protocols df served))),
)
resolve_target_protocol-Served (some fp) detected protocols format h =
    let (target, parsed, tested) = >>=-eq-ok (parse_protocol fp) _ h in
    let (named, printed) = parse_protocol_sound fp target parsed in
    let same : format ≡ target = ground arith in
    (ground arith, λ fp' e. ground arith, λ df e d served. cc)

find-Served :
    (protocols : List ProtocolEntry) (format : ApiFormat)
    → Served protocols format
    → (e : ProtocolEntry) × (find (λ e. str_eq e.protocol (protocol_to_str format)) protocols
        ≡ some e)
find-Served protocols format h =
    find_total (λ e. str_eq e.protocol (protocol_to_str format)) protocols h.1

-- The address of an entry of the channel for this format.
pub record Addressed (protocols : List ProtocolEntry) (format : ApiFormat)
    (address : String × Option String) : Type 0 where
  pub entry : ProtocolEntry
  pub listed : Memᴰ entry protocols
  pub named : entry.protocol ≡ protocol_to_str format
  pub url : address.0 ≡ entry.base_url
  pub rewrite : address.1 ≡ entry.rewrite_path
  pub reachable : is_blank address.0 ≡ false

pub ok_or-eq-ok :
    {A : Type 0} (e : ProxyError) (o : Option A) {a : A} → ok_or e o ≡ ok a → o ≡ some a
ok_or-eq-ok e none h = cc
ok_or-eq-ok e (some b) h = cc

-- An address that is found is the one of an entry of the channel for the format, and not empty.
pub resolve_upstream_url-Addressed :
    (protocols : List ProtocolEntry) (format : ApiFormat) (address : String × Option String)
    → resolve_upstream_url format protocols ≡ ok address
    → Addressed protocols format address
unfolding resolve_upstream_url
resolve_upstream_url-Addressed protocols format address h =
    let (e, found, rest) = >>=-eq-ok _ _ h in
    let (m, named) = find_sound wanted protocols (ok_or-eq-ok _ (find wanted protocols) found) in
    addressed e m ((eq_iff _ _).0 named) (Bool-cases (is_blank e.base_url)) rest
  where
    wanted : ProtocolEntry → Bool
    wanted e = str_eq e.protocol (protocol_to_str format)

    addressed :
        (e : ProtocolEntry)
        → Memᴰ e protocols
        → e.protocol ≡ protocol_to_str format
        → (is_blank e.base_url ≡ true) ⊎ (is_blank e.base_url ≡ false)
        → (if is_blank e.base_url
            then err
                (internal ("protocol entry '" <> protocol_to_str format <> "' has empty base_url"))
            else ok (e.base_url, e.rewrite_path))
          ≡ ok address
        → Addressed protocols format address
    addressed e m named (inl blank) r = cc (rw blank at r)
    addressed e m named (inr there) r =
        let same : (e.base_url, e.rewrite_path) ≡ address = ok-injective (rw there at r) in
        record {
          entry = e;
          listed = m;
          named = named;
          url = sym (ap (λ p. p.0) same);
          rewrite = sym (ap (λ p. p.1) same);
          reachable = subst (λ p. is_blank p.0 ≡ false) same there;
        }

-- The formats that a mapping admits, where no name stands for all of them.
abbrev pub Admits : List String → ApiFormat → Type 0
Admits allowed format = (is_empty allowed ≡ true) ⊎ (allows allowed (protocol_to_str format) ≡ true)

-- The protocol that the compatibility check settles on has an entry in the channel and is one that
-- the mapping admits, and it is the resolved one if the mapping admits that.
pub compatible_protocol-Served :
    (described : String) (allowed : List String) (protocols : List ProtocolEntry)
    (target format : ApiFormat)
    → Served protocols target
    → compatible_protocol described allowed protocols target ≡ ok format
    → Served protocols format × Admits allowed format × (Admits allowed target → format ≡ target)
unfolding compatible_protocol
compatible_protocol-Served described allowed protocols target format served h =
    elim (Bool-cases (is_empty allowed)) [
      | inl free ↦
          let same : target ≡ format = ok-injective (rw free at h) in
          (subst (Served protocols) same served, inl free, λ a. sym same)
      | inr bound ↦ elim (Bool-cases (allows allowed (protocol_to_str target))) [
        | inl fine ↦
            let same : target ≡ format = ok-injective (rw (bound, fine) at h) in
            (
              subst (Served protocols) same served,
              inr (subst (λ f. allows allowed (protocol_to_str f) ≡ true) same fine),
              λ a. sym same,
            )
        | inr unfit ↦
            switched bound unfit (Option-cases (find wanted protocols)) (rw (bound, unfit) at h)
      ]
    ]
  where
    wanted : ProtocolEntry → Bool
    wanted pe = allows allowed pe.protocol

    Goal : Type 0
    Goal =
        Served protocols format × Admits allowed format × (Admits allowed target → format ≡ target)

    switched :
        is_empty allowed ≡ false
        → allows allowed (protocol_to_str target) ≡ false
        → (find wanted protocols ≡ none) ⊎ ((e : ProtocolEntry) × (find wanted protocols ≡ some e))
        → (elim (find wanted protocols) [
          | some entry ↦ parse_protocol entry.protocol
          | none ↦ err (internal described)
        ])
          ≡ ok format
        → Goal
    switched bound unfit (inl nobody) r = cc (rw nobody at r)
    switched bound unfit (inr (e, found)) r =
        let (m, fits) = find_sound wanted protocols found in
        let (named, printed) = parse_protocol_sound e.protocol format (rw found at r) in
        (
          (
            subst (λ s. is_blank s ≡ false) (sym printed) named,
            any-mem (λ pe. str_eq pe.protocol (protocol_to_str format)) protocols m
                ((eq_iff _ _).1 (sym printed)),
          ),
          inr (subst (λ s. allows allowed s ≡ true) (sym printed) fits),
          λ a. elim a [ inl free ↦ cc | inr fine ↦ cc ],
        )

-- ===== src/Collab/Genuine.antt =====
-- What `fetchCommands` of buzz-hermes-bridge/src/collab/BuzzAdapter.ts lets through.
use assurance_toto.Exec.{Result, ◌>>=◌, continue, pure, ok, Thrown, thrown}
use assurance_toto.Prelude.{
  String, Bool, true, false, Option, none, some, List, [], ◌∷◌, ◌≡◌, refl, pos, leb_ℤ, ℤ,
  Bool-cases, arith, inl, ◌==◌, eq_iff, ap, inr, ℕ, ◌⊎◌, negsuc, to_lower_case,
}
use assurance_toto.Json.{Json, elems, arr, str, num, get}
use assurance_toto.Collab.{
  InboundCommand, Candidate, h_tag, command_of, if_verified, with_tag, kept, insert_command,
  sort_commands, received, parse_inbound_event, from_parts, inbound, fetch_commands,
  is_channel_kind, Relay, http_post, query_of, sig_text,
}

-- The first of a list comes no later than another command does.
abbrev IsBefore : InboundCommand → List InboundCommand → Type 0
IsBefore c [] = Unit
IsBefore c (d ∷ ds) = leb_ℤ c.created_at d.created_at ≡ true

abbrev pub IsOrdered : List InboundCommand → Type 0
IsOrdered [] = Unit
IsOrdered (c ∷ cs) = IsBefore c cs × IsOrdered cs

insert-IsBefore :
    (b c : InboundCommand) (cs : List InboundCommand)
    → leb_ℤ b.created_at c.created_at ≡ true
    → IsBefore b cs
    → IsBefore b (insert_command c cs)
unfolding insert_command
insert-IsBefore b c [] h k = h
insert-IsBefore b c (d ∷ ds) h k = elim (Bool-cases (leb_ℤ c.created_at d.created_at)) [
  | inl p ↦ rw p h
  | inr p ↦ rw p k
]

insert-IsOrdered :
    (c : InboundCommand) (cs : List InboundCommand) → IsOrdered cs → IsOrdered (insert_command c cs)
unfolding insert_command
insert-IsOrdered c [] o = (tt, tt)
insert-IsOrdered c (d ∷ ds) (o, os) = elim (Bool-cases (leb_ℤ c.created_at d.created_at)) [
  | inl p ↦ rw p (p, (o, os))
  | inr p ↦ rw p (insert-IsBefore d c ds (ground (arith, p)) o, insert-IsOrdered c ds os)
]

sort-IsOrdered : (cs : List InboundCommand) → IsOrdered (sort_commands cs)
unfolding sort_commands
sort-IsOrdered [] = tt
sort-IsOrdered (c ∷ cs) = insert-IsOrdered c _ (sort-IsOrdered cs)

module _ (verify_event : Candidate → Option Bool) (parse_json : String → Option Json) where
  -- A command that stands in a verified event of kind 9 for the channel, which names its author.
  pub record IsGenuine (channel : String) (c : InboundCommand) : Type 0 where
    pub event : Candidate
    pub tag : String
    pub verified : verify_event event ≡ some true
    pub kind_9 : event.kind ≡ pos 900
    pub tagged : h_tag event.tags ≡ some tag
    pub carried : c ≡ command_of verify_event parse_json event tag
    pub on_channel : c.channel_uuid ≡ channel

  abbrev pub AllGenuine : String → List InboundCommand → Type 0
  AllGenuine channel [] = Unit
  AllGenuine channel (c ∷ cs) = IsGenuine channel c × AllGenuine channel cs

  -- What a command that was read comes from.
  record IsRead (c : InboundCommand) : Type 0 where
    event : Candidate
    tag : String
    verified : verify_event event ≡ some true
    kind_9 : event.kind ≡ pos 900
    tagged : h_tag event.tags ≡ some tag
    carried : c ≡ command_of verify_event parse_json event tag

  abbrev AnyRead : Option InboundCommand → Type 0
  AnyRead none = Unit
  AnyRead (some c) = IsRead c

  if_verified-IsRead :
      (e : Candidate) (h : String) (b : Option Bool)
      → e.kind ≡ pos 900
      → h_tag e.tags ≡ some h
      → verify_event e ≡ b
      → AnyRead (if_verified verify_event parse_json e h b)
  if_verified-IsRead e h none k t v = tt
  if_verified-IsRead e h (some false) k t v = tt
  if_verified-IsRead e h (some true) k t v = record {
    event = e;
    tag = h;
    verified = v;
    kind_9 = k;
    tagged = t;
    carried = refl;
  }

  with_tag-IsRead :
      (e : Candidate) (o : Option String)
      → e.kind ≡ pos 900
      → h_tag e.tags ≡ o
      → AnyRead (with_tag verify_event parse_json e o)
  with_tag-IsRead e none k t = tt
  with_tag-IsRead e (some h) k t = if_verified-IsRead e h (verify_event e) k t refl

  channel_kind : (k : ℤ) → is_channel_kind k ≡ true → k ≡ pos 900
  channel_kind (pos n) h = let e : n ≡ 900 = ground (arith, h) in ap pos e
  channel_kind (negsuc n) h = absurd (cc)

  from_parts-IsRead :
      (kind id pubkey created_at tags content : Option Json) (sig : String)
      → AnyRead (from_parts verify_event parse_json kind id pubkey created_at tags content sig)
  from_parts-IsRead (some (num k)) (some (str id)) (some (str pubkey)) (some (num at))
        (some (arr tags)) (some (str content)) sig =
      elim (Bool-cases (is_channel_kind k)) [
        | inl p ↦ rw p (with_tag-IsRead _ (h_tag (elems tags)) (channel_kind k p) refl)
        | inr p ↦ rw p tt
      ]
  from_parts-IsRead _ _ _ _ _ _ sig = tt

  parse-IsRead : (ev : Json) → AnyRead (parse_inbound_event verify_event parse_json ev)
  unfolding parse_inbound_event
  parse-IsRead ev =
      from_parts-IsRead (get "kind" ev) (get "id" ev) (get "pubkey" ev) (get "created_at" ev)
        (get "tags" ev) (get "content" ev) (sig_text (get "sig" ev))

  kept-AllGenuine :
      (channel : String) (o : Option InboundCommand) (rest : List InboundCommand)
      → AnyRead o
      → AllGenuine channel rest
      → AllGenuine channel (kept verify_event parse_json channel o rest)
  kept-AllGenuine channel none rest r g = g
  kept-AllGenuine channel (some c) rest r g = elim (Bool-cases (c.channel_uuid == channel)) [
    | inl p ↦ rw p (
      record {
        event = r.event;
        tag = r.tag;
        verified = r.verified;
        kind_9 = r.kind_9;
        tagged = r.tagged;
        carried = r.carried;
        on_channel = (eq_iff c.channel_uuid channel).0 p;
      },
      g,
    )
    | inr p ↦ rw p g
  ]

  inbound-AllGenuine :
      (channel : String) (events : List Json)
      → AllGenuine channel (inbound verify_event parse_json channel events)
  unfolding inbound
  inbound-AllGenuine channel [] = tt
  inbound-AllGenuine channel (ev ∷ evs) =
      kept-AllGenuine channel (parse_inbound_event verify_event parse_json ev) _ (parse-IsRead ev)
        (inbound-AllGenuine channel evs)

  insert-AllGenuine :
      (channel : String) (c : InboundCommand) (cs : List InboundCommand)
      → IsGenuine channel c
      → AllGenuine channel cs
      → AllGenuine channel (insert_command c cs)
  unfolding insert_command
  insert-AllGenuine channel c [] g gs = (g, tt)
  insert-AllGenuine channel c (d ∷ ds) g (e, es) =
      elim (Bool-cases (leb_ℤ c.created_at d.created_at)) [
        | inl p ↦ rw p (g, (e, es))
        | inr p ↦ rw p (e, insert-AllGenuine channel c ds g es)
      ]

  sort-AllGenuine :
      (channel : String) (cs : List InboundCommand)
      → AllGenuine channel cs
      → AllGenuine channel (sort_commands cs)
  unfolding sort_commands
  sort-AllGenuine channel [] g = tt
  sort-AllGenuine channel (c ∷ cs) (g, gs) =
      insert-AllGenuine channel c _ g (sort-AllGenuine channel cs gs)

  received-AllGenuine :
      (channel : String) (out : Json)
      → AllGenuine channel (received verify_event parse_json channel out)
        × IsOrdered (received verify_event parse_json channel out)
  received-AllGenuine channel (arr events) = (
    sort-AllGenuine channel _ (inbound-AllGenuine channel (elems events)),
    sort-IsOrdered (inbound verify_event parse_json channel (elems events)),
  )
  received-AllGenuine channel _ = (tt, tt)

  fetched :
      {P : Type 0} (channel : String) (out : Result Json) (p : P)
      → ((cmds : List InboundCommand) × ((continue
              (λ (v : Json). pure (received verify_event parse_json channel v))
              (out, p)).0
            ≡ ok cmds)
          × AllGenuine channel cmds
          × IsOrdered cmds)
        ⊎ ((e : Thrown) × (out ≡ thrown e))
  fetched channel (ok v) p =
      let (g, o) = received-AllGenuine channel v in
      inl (received verify_event parse_json channel v, refl, g, o)
  fetched channel (thrown e) p = inr (e, refl)

  -- `fetchCommands` returns whenever the relay's answer can be read, and then every command that it gives
  -- stands in an event of kind 9 whose signature was verified and whose `h` tag names the channel, with
  -- that event's id, author and time, and the commands come in the order of their times.
  pub fetch_commands-AllGenuine :
      {P : Type 0} (relay : Relay P) (channel : String) (since : Option ℕ) (p : P)
      → ((cmds : List InboundCommand) × ((fetch_commands verify_event parse_json relay channel since
              p).0
            ≡ ok cmds)
          × AllGenuine (to_lower_case channel) cmds
          × IsOrdered cmds)
        ⊎ ((e : Thrown) × ((http_post relay "/query" (query_of (to_lower_case channel) since) p).0
              ≡ thrown e))
  unfolding fetch_commands ◌>>=◌
  fetch_commands-AllGenuine relay channel since p =
      let (r, q) = http_post relay "/query" (query_of (to_lower_case channel) since) p in
      fetched (to_lower_case channel) r q

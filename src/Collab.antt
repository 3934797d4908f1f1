-- ===== src/Collab.antt =====
-- buzz-hermes-bridge/src/collab: the adapter of the Buzz relay and the one in memory. The relay's HTTP
-- interface, the signing and the check of Nostr events, and `JSON.parse` are parameters.
pub mod Genuine
use Prim.Native.String
use Prim.Native.String.{count}
use assurance_toto.Prelude.{
  ℕ, ◌*◌, ◌+◌, String, Bool, true, false, not, Option, none, some, List, [], ◌∷◌, ◌++◌, ℤ, pos,
  leb_ℤ, nat_eq, ltb, decimal, length, select, or_else, template, take_chars, to_lower_case, ◌==◌,
  if◌then◌else◌,
}
use assurance_toto.Json.{
  Json, null, num, str, arr, obj, nil, cons, elems, get, object, texts, stringify, print_leaf,
}
use assurance_toto.Exec.{
  Exec, Result, ok, thrown, Thrown, pipeline_error, other_error, pure, throw, catch, ◌>>=◌,
}

pub record InboundCommand : Type 0 where
  pub event_id : String
  pub channel_uuid : String
  pub author_pubkey : String
  pub text : String
  -- in hundredths of a second
  pub created_at : ℤ

pub record CollabHealth : Type 0 where
  pub ok : Bool
  pub detail : String

-- An event before it is signed, and one as the relay gives it.
pub record Unsigned : Type 0 where
  pub kind : ℕ
  pub created_at : ℕ
  pub tags : List (List String)
  pub content : String

pub record Candidate : Type 0 where
  pub id : String
  pub pubkey : String
  pub sig : String
  pub created_at : ℤ
  pub kind : ℤ
  pub tags : List Json
  pub content : String

-- `KIND_TEXT_NOTE_CHANNEL` and `KIND_HTTP_AUTH`
abbrev pub kind_text_note_channel : ℕ
kind_text_note_channel = 9

abbrev kind_http_auth : ℕ
kind_http_auth = 27235

-- A response of `fetch`.
pub record Response : Type 0 where
  pub ok : Bool
  pub status : ℕ
  pub is_json : Bool
  -- `res.text()`, with "" where it fails, and `res.json()`
  pub text : String
  pub json : Result Json

-- What the adapter calls.
pub record Relay (P : Type 0) : Type 0 where
  -- `new URL(path, buzzRelayUrl).toString()`
  pub url_of : String → String
  pub post : (url authorization body : String) → Exec P Response
  pub get_health : (url : String) → Exec P Response
  -- `finalizeEvent` with the secret key: the signed event, as JSON, and its id
  pub finalize : Unsigned → Json × String
  pub base64 : String → String
  pub sha256 : String → String
  -- `Math.floor(Date.now() / 1000)`
  pub now : ℕ

module _ {P : Type 0} (relay : Relay P) where
  -- `authHeader`
  unfoldable pub auth_header : String → String → String
  auth_header url body =
      let (signed, id) = relay.finalize (record {
        kind = kind_http_auth;
        created_at = relay.now;
        tags =
            ("u" ∷ url ∷ [])
            ∷ ("method" ∷ "POST" ∷ [])
            ∷ ("payload" ∷ relay.sha256 body ∷ [])
            ∷ ("t" ∷ decimal relay.now ∷ [])
            ∷ [];
        content = "";
      }) in
      template ("Nostr " ∷ relay.base64 (stringify signed) ∷ [])

  abbrev returned : Result Json → Exec P Json
  returned (ok v) = pure v
  returned (thrown e) = throw e

  abbrev read_response : String → Response → Exec P Json
  read_response path res =
      if not res.ok
      then throw (
          other_error (
            template (
              "Buzz REST "
              ∷ path
              ∷ " → "
              ∷ decimal res.status
              ∷ " "
              ∷ take_chars 120 res.text
              ∷ [])))
      else if res.is_json
      then returned res.json
      else pure (str res.text)

  -- `httpPost`
  unfoldable pub http_post : String → Json → Exec P Json
  http_post path body = do
    let url = relay.url_of path
    let json = stringify body
    res ← relay.post url (auth_header url json) json
    read_response path res

  -- `out.event_id ?? signed.id`
  abbrev sent_id : String → Option Json → String
  sent_id id none = id
  sent_id id (some null) = id
  sent_id id (some (str s)) = s
  sent_id id (some v) = print_leaf v

  abbrev posted : String → Json → Exec P String
  posted id null = throw (other_error "Cannot read properties of null (reading 'event_id')")
  posted id out = pure (sent_id id (get "event_id" out))

  abbrev send : Json × String → Exec P String
  send (signed, id) = do out ← http_post "/events" signed; posted id out

  -- `postMessage`
  unfoldable pub post_message : String → String → String → Exec P String
  post_message channel_uuid text correlation_id =
      if ltb (64 * 1024) (count text)
      then throw (other_error "message too long (>64 KiB)")
      else send (
          relay.finalize (record {
            kind = kind_text_note_channel;
            created_at = relay.now;
            tags = ("h" ∷ to_lower_case channel_uuid ∷ []) ∷ [];
            content =
                stringify
                  (object (("correlation_id", str correlation_id) ∷ ("text", str text) ∷ []));
          }))

  abbrev message_of : Thrown → String
  message_of (pipeline_error code message retryable) = message
  message_of (other_error message) = message

  abbrev health_of : Response → CollabHealth
  health_of res = record { ok = res.ok; detail = template ("buzz=" ∷ decimal res.status ∷ []) }

  -- `health`
  unfoldable pub health : Exec P CollabHealth
  health =
      catch (relay.get_health (relay.url_of "/health") >>= λ res. pure (health_of res))
        (λ err. pure (record { ok = false; detail = message_of err }))

-- `t[1]` of a tag whose first entry is "h".
abbrev h_value : Json → Option String
h_value (arr (cons (str t) (cons (str v) rest))) = if t == "h" then some v else none
h_value _ = none

abbrev or_next : Option String → Option String → Option String
or_next none later = later
or_next (some v) later = some v

-- `tags.find(...)`, and its value
unfoldable pub h_tag : List Json → Option String
h_tag [] = none
h_tag (t ∷ ts) = or_next (h_value t) (h_tag ts)

abbrev pub is_channel_kind : ℤ → Bool
is_channel_kind (pos n) = nat_eq n (100 * kind_text_note_channel)
is_channel_kind _ = false

-- `String(ev['sig'] ?? '')`, for a value that holds no other
abbrev pub sig_text : Option Json → String
sig_text none = ""
sig_text (some null) = ""
sig_text (some (str s)) = s
sig_text (some v) = print_leaf v

unfoldable pub insert_command : InboundCommand → List InboundCommand → List InboundCommand
insert_command c [] = c ∷ []
insert_command c (d ∷ ds) =
    let rest = insert_command c ds in
    if leb_ℤ c.created_at d.created_at then c ∷ d ∷ ds else d ∷ rest

-- `events.sort(...)`, which is stable
unfoldable pub sort_commands : List InboundCommand → List InboundCommand
sort_commands [] = []
sort_commands (c ∷ cs) = insert_command c (sort_commands cs)

abbrev since_filter : Option ℕ → List (String × Json)
since_filter none = []
since_filter (some s) = ("since", num (pos (100 * s))) ∷ []

abbrev pub query_of : String → Option ℕ → Json
query_of channel since = arr (
    cons
      (object (
        ("kinds", arr (cons (num (pos (100 * kind_text_note_channel))) nil))
        ∷ ("#h", texts (channel ∷ []))
        ∷ ("limit", num (pos (100 * 200)))
        ∷ since_filter since))
      nil)

-- `verify_event c` is `none` where nostr-tools throws.
module _ (verify_event : Candidate → Option Bool) (parse_json : String → Option Json) where
  abbrev text_in : String → Option Json → String
  text_in content (some (str t)) = t
  text_in content _ = content

  -- The text of `{correlation_id, text}`, or the content where it is no such thing.
  abbrev pub text_of : String → Option Json → String
  text_of content none = content
  text_of content (some parsed) = text_in content (get "text" parsed)

  abbrev pub command_of : Candidate → String → InboundCommand
  command_of c h = record {
    event_id = c.id;
    channel_uuid = to_lower_case h;
    author_pubkey = c.pubkey;
    text = text_of c.content (parse_json c.content);
    created_at = c.created_at;
  }

  abbrev pub if_verified : Candidate → String → Option Bool → Option InboundCommand
  if_verified c h (some true) = some (command_of c h)
  if_verified c h _ = none

  abbrev pub with_tag : Candidate → Option String → Option InboundCommand
  with_tag c none = none
  with_tag c (some h) = if_verified c h (verify_event c)

  abbrev pub from_parts :
      (kind id pubkey created_at tags content : Option Json) (sig : String) → Option InboundCommand
  from_parts (some (num k)) (some (str id)) (some (str pubkey)) (some (num at)) (some (arr tags))
        (some (str content)) sig =
      if is_channel_kind k
      then with_tag
          (record {
            id = id;
            pubkey = pubkey;
            sig = sig;
            created_at = at;
            kind = k;
            tags = elems tags;
            content = content;
          })
          (h_tag (elems tags))
      else none
  from_parts _ _ _ _ _ _ sig = none

  -- `parseInboundEvent`
  unfoldable pub parse_inbound_event : Json → Option InboundCommand
  parse_inbound_event ev =
      from_parts (get "kind" ev) (get "id" ev) (get "pubkey" ev) (get "created_at" ev)
        (get "tags" ev) (get "content" ev) (sig_text (get "sig" ev))

  abbrev pub kept : String → Option InboundCommand → List InboundCommand → List InboundCommand
  kept channel none rest = rest
  kept channel (some c) rest = if c.channel_uuid == channel then c ∷ rest else rest

  -- The loop of `fetchCommands`.
  unfoldable pub inbound : String → List Json → List InboundCommand
  inbound channel [] = []
  inbound channel (ev ∷ evs) = kept channel (parse_inbound_event ev) (inbound channel evs)

  abbrev pub received : String → Json → List InboundCommand
  received channel (arr events) = sort_commands (inbound channel (elems events))
  received channel _ = []

  -- `fetchCommands`
  unfoldable pub fetch_commands :
      {P : Type 0} → Relay P → String → Option ℕ → Exec P (List InboundCommand)
  fetch_commands relay channel_uuid since = do
    out ← http_post relay "/query" (query_of (to_lower_case channel_uuid) since)
    pure (received (to_lower_case channel_uuid) out)

-- `NullCollabAdapter`: what it has posted, and its `postMessage`.
pub record Posted : Type 0 where
  pub channel_uuid : String
  pub text : String
  pub correlation_id : String
  pub event_id : String

unfoldable pub null_post_message : String → String → String → Exec (List Posted) String
null_post_message channel_uuid text correlation_id sent =
    let id : String = template ("null-" ∷ decimal (length sent + 1) ∷ []) in
    (
      ok id,
      sent
          ++ record {
            channel_uuid = channel_uuid;
            text = text;
            correlation_id = correlation_id;
            event_id = id;
          }
            ∷ [],
    )

-- `makeCollabAdapter`
pub data Adapter : Type 0 where
  buzz_adapter : (private_key : String) → Adapter
  null_adapter : Adapter

unfoldable pub make_collab_adapter : Option String → String → Adapter
make_collab_adapter none relay_url = null_adapter
make_collab_adapter (some key) relay_url =
    if ltb 0 (count relay_url) then buzz_adapter key else null_adapter

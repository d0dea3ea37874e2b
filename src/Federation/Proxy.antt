-- ===== src/Federation/Proxy.antt =====
-- src/api/federation/proxy.py: which server an alias belongs to, and the request that is sent to it.
pub mod Forwarded
use nexus_gate.Prelude.{
  ℕ, ◌+◌, String, Bool, true, false, not, ◌||◌, Option, none, some, List, [], ◌∷◌, if◌then◌else◌,
  contains, lookup, insert, remove, string_eq, ◌==◌,
}
use nexus_gate.Text.{◌<>◌, starts_with, size, drop, lstrip_char, rstrip_char}
use nexus_gate.Errors.{Result, raise, ok, nexus, fed_server_down}

-- `FedServerConfig`; `verify` tells whether the trust mode is "verify".
pub record Server : Type 0 where
  pub url : String
  pub secret : String
  pub node_id : String
  pub verify : Bool

-- Of the configuration: the federated alias of each database, and the servers by name.
pub record Mesh : Type 0 where
  pub federated_aliases : List (Option String)
  pub server : List (String × Server)

-- The dictionaries `_ALIAS_TO_SERVER` and `_PROXY_SECRET_CACHE`.
pub record Routes : Type 0 where
  pub alias_to_server : List (String × String)
  pub secrets : List (String × String)

-- The loop over the servers, up to the first whose name and an underscore begin the alias.
unfoldable pub server_of : String → List (String × Server) → Option String
server_of alias [] = none
server_of alias ((srv_alias, cfg) ∷ servers) =
    let rest = server_of alias servers in
    if starts_with (srv_alias <> "_") alias then some srv_alias else rest

abbrev pub remember : String → Option String → List (String × String) → List (String × String)
remember alias none m = m
remember alias (some srv_alias) m = insert alias srv_alias m

unfoldable pub build_alias_map :
    List (String × Server) → List (Option String) → List (String × String) → List (String × String)
unfolding server_of
build_alias_map servers [] m = m
build_alias_map servers (none ∷ aliases) m = build_alias_map servers aliases m
build_alias_map servers (some fed_alias ∷ aliases) m =
    build_alias_map servers aliases (remember fed_alias (server_of fed_alias servers) m)

abbrev pub built : Mesh → List (String × String) → List (String × String)
built mesh [] = build_alias_map mesh.server mesh.federated_aliases []
built mesh (entry ∷ m) = entry ∷ m

-- A server that the dictionary gives, if its name is not empty.
abbrev pub known_server : Option String → Option String
known_server none = none
known_server (some server_id) = if server_id == "" then none else some server_id

abbrev pub resolve_in :
    Mesh → String → List (String × String) → Option String → List (String × String) × Option String
resolve_in mesh alias m (some server_id) = (m, some server_id)
resolve_in mesh alias m none =
    let found = server_of alias mesh.server in (remember alias found m, found)

unfoldable pub resolve_server : Mesh → String → Routes → Routes × Option String
unfolding build_alias_map
resolve_server mesh alias routes =
    let m = built mesh routes.alias_to_server in
    let (m', found) = resolve_in mesh alias m (known_server (lookup alias m)) in
    (record routes { alias_to_server = m' }, found)

unfoldable pub build_remote_url : Server → String → String → String → Bool → String
build_remote_url cfg target_alias path query is_database =
    let base_url = rstrip_char b'/' cfg.url in
    let subpath = lstrip_char b'/' path in
    let remote_url =
      if is_database
      then base_url <> ("/api/db/" <> (target_alias <> ("/" <> subpath)))
      else base_url <> ("/api/fs/" <> (target_alias <> ("/" <> subpath))) in
    if query == "" then remote_url else remote_url <> ("?" <> query)

pub record Request : Type 0 where
  pub method : String
  pub headers : List (String × String)
  pub query : String
  pub request_id : Option String

pub record IpAddress : Type 0 where
  pub is_private : Bool
  pub is_loopback : Bool
  pub is_link_local : Bool

pub record Sent : Type 0 where
  pub method : String
  pub url : String
  pub headers : List (String × String)
  pub streams_body : Bool

pub record Response : Type 0 where
  pub status_code : ℕ
  pub headers : List (String × String)
  pub body : String

-- What is called of Python and of httpx: `urlparse(url).hostname`, where `none` is an exception;
-- `ip_address`, where `none` is a `ValueError`; and `send`, where `none` is a `RequestError`.
pub record Http : Type 1 where
  pub hostname : String → Option (Option String)
  pub ip_address : String → Option IpAddress
  pub lower : String → String
  pub b64encode : String → String
  pub Net : Type 0
  pub send : Bool → Sent → Net → Net × Option Response

-- A secret is encoded once for a node.
abbrev pub keep_secret :
    String → String → Option String → List (String × String) → List (String × String) × String
keep_secret node_id fresh none m = (insert node_id fresh m, fresh)
keep_secret node_id fresh (some secret) m = (m, secret)

abbrev pub id_of : Option String → String
id_of none = "-"
id_of (some request_id) = request_id

module _ (http : Http) where
  unfoldable pub build_proxy_headers : Request → Server → Routes → Routes × List (String × String)
  build_proxy_headers req cfg routes =
      let (secrets, secret) =
        keep_secret cfg.node_id (http.b64encode cfg.secret) (lookup cfg.node_id routes.secrets)
          routes.secrets in
      (
        record routes { secrets = secrets },
        insert "X-Request-ID" (id_of req.request_id) (
            insert "X-Federation-Node" cfg.node_id (
              insert "X-Federation-Secret" secret
                (remove "content-length" (remove "host" req.headers)))),
      )

  abbrev pub is_internal : Option IpAddress → Bool
  is_internal none = false
  is_internal (some ip) = ip.is_private || ip.is_loopback || ip.is_link_local

  abbrev pub is_safe_host : Option (Option String) → Bool
  is_safe_host none = false
  is_safe_host (some none) = false
  is_safe_host (some (some hostname)) =
      if hostname == ""
      then false
      else if contains ("localhost" ∷ "127.0.0.1" ∷ "0.0.0.0" ∷ "::1" ∷ []) (http.lower hostname)
      then false
      else not (is_internal (http.ip_address hostname))

  unfoldable pub is_safe_url : String → Bool
  is_safe_url url = is_safe_host (http.hostname url)

  unfoldable pub pass_headers :
      List (String × String) → List (String × String) → List (String × String)
  pass_headers [] passed = passed
  pass_headers ((k, v) ∷ headers) passed = pass_headers headers (
      if contains ("transfer-encoding" ∷ "content-encoding" ∷ "connection" ∷ "content-length" ∷ [])
        (http.lower k)
      then passed
      else insert (http.lower k) v passed)

  abbrev pub relay : Option Response → Result Response
  unfolding pass_headers
  relay none = raise (nexus fed_server_down 502)
  relay (some resp) = ok (record resp { headers = pass_headers resp.headers [] })

  unfoldable pub stream_proxy_execution : Bool → Sent → http.Net → http.Net × Result Response
  unfolding pass_headers
  stream_proxy_execution verify sent net =
      let (net', resp) = http.send verify sent net in (net', relay resp)

  abbrev pub prepare : Request → String → List (String × String) → Sent
  prepare req remote_url headers = record {
    method = req.method;
    url = remote_url;
    headers = headers;
    streams_body = contains ("POST" ∷ "PUT" ∷ "PATCH" ∷ []) req.method;
  }

  -- With the server found.
  unfoldable pub forward :
      String → Server → Request → Routes × http.Net → (Routes × http.Net) × Result Response
  unfolding build_proxy_headers is_safe_url stream_proxy_execution
  forward remote_url cfg req (routes, net) =
      if not (is_safe_url remote_url)
      then ((routes, net), raise (nexus fed_server_down 403))
      else (let (routes', headers) = build_proxy_headers req cfg routes in
          let (net', out) =
            stream_proxy_execution cfg.verify (prepare req remote_url headers) net in
          ((routes', net'), out))

  unfoldable pub dispatch :
      Mesh
      → String
      → String
      → Request
      → Bool
      → Option String
      → Routes × http.Net
      → (Routes × http.Net) × Result Response
  unfolding build_remote_url forward
  dispatch mesh alias path req is_database none st = (st, raise (nexus fed_server_down 404))
  dispatch mesh alias path req is_database (some srv_alias) st =
      if srv_alias == ""
      then (st, raise (nexus fed_server_down 404))
      else elim (lookup srv_alias mesh.server) [
        | none ↦ (st, raise (nexus fed_server_down 404))
        | some cfg ↦
            let target_alias = drop (size srv_alias + 1) alias in
            forward (build_remote_url cfg target_alias path req.query is_database) cfg req st
      ]

  unfoldable pub proxy_request :
      Mesh
      → String
      → String
      → Request
      → Bool
      → Routes × http.Net
      → (Routes × http.Net) × Result Response
  unfolding resolve_server dispatch
  proxy_request mesh alias path req is_database (routes, net) =
      let (routes', found) = resolve_server mesh alias routes in
      dispatch mesh alias path req is_database found (routes', net)

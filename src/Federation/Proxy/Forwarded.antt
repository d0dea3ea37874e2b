-- ===== src/Federation/Proxy/Forwarded.antt =====
-- What src/api/federation/proxy.py sends, and to whom.
use nexus_gate.Prelude.{
  ℕ, ◌+◌, String, Bool, true, Option, none, some, List, [], ◌∷◌, ◌≡◌, refl, ap, sym, ◌∙◌, subst,
  arith, ◌⊎◌, inl, inr, lookup, insert, string_eq, ◌==◌, All, eq_iff, Bool-cases, Option-cases,
  lookup-insert, lookup-remove,
}
use nexus_gate.Text.{◌<>◌, cut_prefix, size, drop, cut_prefix-append, drop-cut_prefix, size-append}
use nexus_gate.Errors.{Result, raise, nexus, fed_server_down}
use nexus_gate.Federation.Proxy.{
  Server, Mesh, Routes, Request, Sent, Response, Http, server_of, remember, build_alias_map, built,
  known_server, resolve_in, resolve_server, build_remote_url, is_safe_url, build_proxy_headers,
  forward, dispatch, proxy_request, stream_proxy_execution, prepare,
}

module _ (servers : List (String × Server)) where
  -- An entry that a search of the servers would give now.
  abbrev pub IsRoute : String × String → Type 0
  IsRoute (alias, srv_alias) = server_of alias servers ≡ some srv_alias

  insert-All :
      (alias srv : String) (m : List (String × String))
      → server_of alias servers ≡ some srv
      → All IsRoute m
      → All IsRoute (insert alias srv m)
  unfolding insert
  insert-All alias srv [] e h = (e, tt)
  insert-All alias srv ((k, v) ∷ m) e (h, hs) = elim (Bool-cases (k == alias)) [
    | inl same ↦ rw same (e, hs)
    | inr other ↦ rw other (h, insert-All alias srv m e hs)
  ]

  remember-All :
      (alias : String) (o : Option String) (m : List (String × String))
      → server_of alias servers ≡ o
      → All IsRoute m
      → All IsRoute (remember alias o m)
  remember-All alias none m e h = h
  remember-All alias (some srv) m e h = insert-All alias srv m e h

  build-All :
      (aliases : List (Option String)) (m : List (String × String))
      → All IsRoute m
      → All IsRoute (build_alias_map servers aliases m)
  unfolding build_alias_map
  build-All [] m h = h
  build-All (none ∷ aliases) m h = build-All aliases m h
  build-All (some alias ∷ aliases) m h =
      build-All aliases _ (remember-All alias (server_of alias servers) m refl h)

  lookup-route :
      (alias srv : String) (m : List (String × String))
      → All IsRoute m
      → lookup alias m ≡ some srv
      → server_of alias servers ≡ some srv
  unfolding lookup
  lookup-route alias srv [] h e = cc
  lookup-route alias srv ((k, v) ∷ m) (h, hs) e = elim (Bool-cases (k == alias)) [
    | inl same ↦
        ap (λ a. server_of a servers) (sym ((eq_iff k alias).0 same)) ∙ h ∙ ground (arith, same, e)
    | inr other ↦ lookup-route alias srv m hs (ground (arith, other, e))
  ]

  -- The server found begins the alias, and is of the configuration.
  server_of-some :
      (alias srv : String) (all : List (String × Server))
      → server_of alias all ≡ some srv
      → ((target : String) × (cut_prefix (srv <> "_") alias ≡ some target))
        × ((cfg : Server) × (lookup srv all ≡ some cfg))
  unfolding server_of lookup
  server_of-some alias srv [] e = cc
  server_of-some alias srv ((name, cfg) ∷ all) e =
      elim (Option-cases (cut_prefix (name <> "_") alias)) [
        | inl none_left ↦
            let (cut, known) = server_of-some alias srv all (ground (arith, none_left, e)) in
            (
              cut,
              elim (Bool-cases (name == srv)) [
                | inl same ↦ (cfg, rw same refl)
                | inr other ↦ rw other known
              ],
            )
        | inr (target, cut) ↦
            let same : name ≡ srv = ground (arith, cut, e) in
            (
              (target, subst (λ n. cut_prefix (n <> "_") alias ≡ some target) same cut),
              (cfg, ground (arith, same, eq_iff name srv)),
            )
      ]

  built-All :
      (aliases : List (Option String)) (m : List (String × String))
      → All IsRoute m
      → All IsRoute (built (record { federated_aliases = aliases; server = servers }) m)
  built-All aliases [] h = build-All aliases [] tt
  built-All aliases (entry ∷ m) h = h

known-lookup : (o : Option String) (srv : String) → known_server o ≡ some srv → o ≡ some srv
known-lookup none srv e = cc
known-lookup (some s) srv e = ground (arith, e)

-- The dictionary holds only what a search of the servers would give.
abbrev pub IsFresh : Mesh → Routes → Type 0
IsFresh mesh routes = All (IsRoute mesh.server) routes.alias_to_server

known-resolve :
    (mesh : Mesh) (alias : String) (m : List (String × String))
    → All (IsRoute mesh.server) m
    → let (m', found) = resolve_in mesh alias m (known_server (lookup alias m)) in
      All (IsRoute mesh.server) m' × (found ≡ server_of alias mesh.server)
known-resolve mesh alias m h = elim (Option-cases (known_server (lookup alias m))) [
  | inl missing ↦
      rw missing (remember-All mesh.server alias (server_of alias mesh.server) m refl h, refl)
  | inr (srv, known) ↦
      rw known
        (h, sym (lookup-route mesh.server alias srv m h (known-lookup (lookup alias m) srv known)))
]

-- The dictionary of aliases changes no answer: the server of an alias is the first whose name and
-- an underscore begin it, and what the dictionary holds stays what a search would give.
pub resolve_server-first :
    (mesh : Mesh) (alias : String) (routes : Routes)
    → IsFresh mesh routes
    → let (routes', found) = resolve_server mesh alias routes in
      IsFresh mesh routes' × (found ≡ server_of alias mesh.server)
unfolding resolve_server
resolve_server-first mesh alias routes h =
    known-resolve mesh alias (built mesh routes.alias_to_server)
      (built-All mesh.server mesh.federated_aliases routes.alias_to_server h)

module _ (http : Http) (mesh : Mesh) (alias path : String) (req : Request)
    (is_database : Bool) where
  -- What a request may be that is sent for an alias.
  pub record Forwarded (cfg : Server) (sent : Sent) : Type 0 where
    pub srv_alias : String
    pub target_alias : String
    pub named : alias ≡ (srv_alias <> "_") <> target_alias
    pub known : lookup srv_alias mesh.server ≡ some cfg
    pub addressed : sent.url ≡ build_remote_url cfg target_alias path req.query is_database
    pub safe : is_safe_url http sent.url ≡ true
    pub signed : lookup "X-Federation-Node" sent.headers ≡ some cfg.node_id
    pub no_host : lookup "host" sent.headers ≡ none
    pub no_length : lookup "content-length" sent.headers ≡ none

  -- Nothing is sent and the call is refused, or one such request is sent and its answer is relayed.
  abbrev pub Sends : http.Net → http.Net → Result Response → Type 0
  Sends net net' out =
      ((net' ≡ net) × ((status : ℕ) × (out ≡ raise (nexus fed_server_down status))))
      ⊎ ((cfg : Server) × (sent : Sent) × Forwarded cfg sent
          × ((net', out) ≡ stream_proxy_execution http cfg.verify sent net))

  headers_of :
      (cfg : Server) (routes : Routes)
      → let headers = (build_proxy_headers http req cfg routes).1 in
        (lookup "X-Federation-Node" headers ≡ some cfg.node_id)
        × (lookup "host" headers ≡ none)
        × (lookup "content-length" headers ≡ none)
  unfolding build_proxy_headers
  headers_of cfg routes =
      (simp lookup-insert, simp (lookup-insert, lookup-remove), simp (lookup-insert, lookup-remove))

  build-alias :
      (cfg : Server) (routes : Routes)
      → (build_proxy_headers http req cfg routes).0.alias_to_server ≡ routes.alias_to_server
  unfolding build_proxy_headers
  build-alias cfg routes = refl

  sent-Forwarded :
      (cfg : Server) (srv_alias target_alias : String) (routes : Routes)
      → let url = build_remote_url cfg target_alias path req.query is_database in
        alias ≡ (srv_alias <> "_") <> target_alias
        → lookup srv_alias mesh.server ≡ some cfg
        → is_safe_url http url ≡ true
        → Forwarded cfg (prepare http req url (build_proxy_headers http req cfg routes).1)
  sent-Forwarded cfg srv_alias target_alias routes named known safe =
      let (signed, no_host, no_length) = headers_of cfg routes in
      record {
        srv_alias = srv_alias;
        target_alias = target_alias;
        named = named;
        known = known;
        addressed = refl;
        safe = safe;
        signed = signed;
        no_host = no_host;
        no_length = no_length;
      }

  module _ (cfg : Server) (srv_alias target_alias : String)
      (named : alias ≡ (srv_alias <> "_") <> target_alias)
      (known : lookup srv_alias mesh.server ≡ some cfg) where
    forward-Sends :
        (routes : Routes) (net : http.Net)
        → let url = build_remote_url cfg target_alias path req.query is_database in
          let (st, out) = forward http url cfg req (routes, net) in
          IsFresh mesh routes → IsFresh mesh st.0 × Sends net st.1 out
    unfolding forward
    forward-Sends routes net fresh =
        elim (Bool-cases
          (is_safe_url http (build_remote_url cfg target_alias path req.query is_database))) [
            | inl safe ↦ rw safe (
              subst (λ m. All (IsRoute mesh.server) m) (sym (build-alias cfg routes)) fresh,
              inr (cfg, _, sent-Forwarded cfg srv_alias target_alias routes named known safe, refl),
            )
            | inr unsafe ↦ rw unsafe (fresh, inl (refl, (403, refl)))
          ]

  target-drop :
      (srv target : String)
      → cut_prefix (srv <> "_") alias ≡ some target
      → drop (size srv + 1) alias ≡ target
  unfolding size
  target-drop srv target cut =
      ap (λ n. drop n alias) (sym (size-append srv "_"))
      ∙ drop-cut_prefix (srv <> "_") alias target cut

  dispatch-Sends :
      (found : Option String) (routes : Routes) (net : http.Net)
      → server_of alias mesh.server ≡ found
      → IsFresh mesh routes
      → let (st, out) = dispatch http mesh alias path req is_database found (routes, net) in
        IsFresh mesh st.0 × Sends net st.1 out
  unfolding dispatch
  dispatch-Sends none routes net e fresh = (fresh, inl (refl, (404, refl)))
  dispatch-Sends (some srv) routes net e fresh =
      let ((target, cut), (cfg, known)) = server_of-some mesh.server alias srv mesh.server e in
      let sends =
        forward-Sends cfg srv target (cut_prefix-append (srv <> "_") alias target cut) known routes
          net fresh in
      elim (Bool-cases (srv == "")) [
        | inl blank ↦ rw blank (fresh, inl (refl, (404, refl)))
        | inr named ↦ rw (named, known, target-drop srv target cut) sends
      ]

  -- A request for an alias is refused and nothing is sent, or one request is sent: to a server of
  -- the configuration whose name, an underscore and the target make up the alias, at the address
  -- that is built for the target, which the check of addresses lets pass, with the node's name and
  -- without the caller's host and length; and its answer is relayed.
  pub proxy_request-Sends :
      (routes : Routes) (net : http.Net)
      → IsFresh mesh routes
      → let (st, out) = proxy_request http mesh alias path req is_database (routes, net) in
        IsFresh mesh st.0 × Sends net st.1 out
  unfolding proxy_request
  proxy_request-Sends routes net fresh =
      let (routes', found) = resolve_server mesh alias routes in
      let (fresh', first) = resolve_server-first mesh alias routes fresh in
      dispatch-Sends found routes' net (sym first) fresh'

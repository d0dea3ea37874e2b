-- ===== src/Tests/ProxyTests.antt =====
-- Forwarded requests at concrete inputs.
use nexus_gate.Prelude.{
  ◌≡◌, refl, true, none, some, List, [], ◌∷◌, lookup, string_eq, insert, remove,
}
use nexus_gate.Text.{cut_prefix, rstrip_char, lstrip_char, drop, size}
use nexus_gate.Federation.Proxy.{
  Server, Mesh, Routes, Request, Sent, Http, server_of, resolve_server, proxy_request,
  build_remote_url,
}
use nexus_gate.Federation.Proxy.Forwarded.{IsFresh, Sends, proxy_request-Sends}

-- A network that keeps what it was sent and answers with 200.
abbrev pub echo_http : Http
echo_http = record {
  hostname = λ url. some (some "b.example.org");
  ip_address = λ host. none;
  lower = λ s. s;
  b64encode = λ s. s;
  Net = List Sent;
  send = λ verify sent net.
      (sent ∷ net, some (record { status_code = 200; headers = []; body = "[1]" }));
}

abbrev pub other_site : Server
other_site = record {
  url = "https://b.example.org/";
  secret = "s";
  node_id = "here";
  verify = true;
}

abbrev pub two_sites : Mesh
two_sites = record { federated_aliases = []; server = ("a", other_site) ∷ ("b", other_site) ∷ [] }

abbrev pub get_rows_request : Request
get_rows_request = record {
  method = "GET";
  headers = ("host", "a.example.org") ∷ [];
  query = "page=2";
  request_id = some "r1";
}

abbrev pub no_routes : Routes
no_routes = record { alias_to_server = []; secrets = [] }

program : Unit {0}
unfolding cut_prefix rstrip_char lstrip_char drop size server_of resolve_server build_remote_url
    lookup insert remove
program = tt

url_test :
    build_remote_url other_site "shop" "/orders/rows" "page=2" true
    ≡ "https://b.example.org/api/db/shop/orders/rows?page=2"
unfolding program
url_test = refl

proxy_request-Sends_example :
    let (st, out) =
      proxy_request echo_http two_sites "b_shop" "orders/rows" get_rows_request true
        (no_routes, []) in
    IsFresh two_sites st.0
    × Sends echo_http two_sites "b_shop" "orders/rows" get_rows_request true [] st.1 out
proxy_request-Sends_example =
    proxy_request-Sends echo_http two_sites "b_shop" "orders/rows" get_rows_request true no_routes
      [] tt

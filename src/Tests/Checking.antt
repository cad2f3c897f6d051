-- ===== src/Tests/Checking.antt =====
-- The health check at a concrete network.
use secrets_store_csi_driver.Prelude.{ℕ, suc, codes, ◌-◌, ◌≡◌, ◌↔◌, refl, ap, sym, some, arith}
use secrets_store_csi_driver.Outcome.{done}
use secrets_store_csi_driver.Server.Health.{
  Net, HealthZ, ended_well, dial_unix_socket, CountsOpen, IsServing, serving, serve_http, status,
  serve_http_iff, serve_http-open_connections,
}

-- The world is the number of open connections.
abbrev net : Net ℕ
net = record {
  dial = λ p w. (done 9, suc w);
  remote_check = λ c t w. (done (some serving), w);
  write_ok = λ w. (done tt, w);
  close = λ c w. w - 1;
  escaped_path = λ p. p;
  listen_and_serve = λ h p w. (ended_well, w);
}

abbrev health : HealthZ
health = record {
  host = codes ":8989";
  path = codes "/healthz";
  unix_socket_path = codes "/s";
  rpc_timeout = 5;
}

counts : CountsOpen net health (λ w. w)
unfolding dial_unix_socket
counts = record {
  opened = λ w w' c h. sym (ap (λ p. p.1) h);
  not_opened = λ w w' f h. cc;
  asked = λ c w. refl;
  wrote = λ w. refl;
  closed = λ c w n h. omega arith;
}

serve_http_iff_example :
    (status (serve_http net health 3).0 ≡ 200)
    ↔ IsServing net health (dial_unix_socket net health 3)
serve_http_iff_example = serve_http_iff net health 3

serve_http-open_connections_example : (serve_http net health 3).1 ≡ 3
serve_http-open_connections_example = serve_http-open_connections net health (λ w. w) counts 3

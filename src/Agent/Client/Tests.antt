-- ===== src/Agent/Client/Tests.antt =====
-- The laws of polls and registrations at the sample client.
use helvilette.Prelude.{ℕ, suc, ◌<◌, ◌≡◌, ◌↔◌, refl, true, false, none, some, ok, [], ◌∷◌, arith}
use helvilette.Agent.Sample.{world, client, config, nginx_job}
use helvilette.Agent.Client.{HttpResponse, poll, register_node}
use helvilette.Agent.Client.Laws.{PolledTo, poll_iff}
use helvilette.Agent.Client.Registration.{attempts, IsFirstAccepted, register_node-IsFirstAccepted}

poll_iff_example :
    (((poll client config (world 0 0)).1 ≡ ok (some nginx_job)) ↔ (
      (resp : HttpResponse) × PolledTo client config (world 0 0) resp
      × (resp.code ≡ 200)
      × (client.decode_job resp.body ≡ ok nginx_job)))
    × (((poll client config (world 0 0)).1 ≡ ok none)
        ↔ ((resp : HttpResponse) × PolledTo client config (world 0 0) resp × (resp.code ≡ 204)))
poll_iff_example = poll_iff client config (world 0 0) nginx_job

register_node-IsFirstAccepted_example :
    (k : ℕ) × (k < suc 1)
    × IsFirstAccepted client config k (world 0 0)
    × (register_node client config
          ((false, false) ∷ (false, false) ∷ (false, false) ∷ [])
          (world 0 0)
        ≡ (attempts client config (suc k) (world 0 0), some true))
register_node-IsFirstAccepted_example =
    register_node-IsFirstAccepted client config 1
      ((false, false) ∷ (false, false) ∷ (false, false) ∷ []) (world 0 0) (omega arith)
      ((refl, refl), ((refl, refl), ((refl, refl), tt))) refl

-- ===== src/Examples/Routings.antt =====
-- A request to the routes of internal/api/router.go.
use mini_bk.Prelude.{[], ◌∷◌, ◌≡◌, refl}
use mini_bk.Api.Routes.{
  stream_task_log, method_of, path_of, params_of, matched, IsMatcher, routed, register_routes,
  routed-path_of,
}

matched-IsMatcher : IsMatcher matched
unfolding IsMatcher matched
matched-IsMatcher = (refl, λ s ss. refl, λ p ps. refl, λ w s ps ss. refl, λ s ps ss. refl)

routed-path_of_example :
    routed matched (method_of stream_task_log) (path_of stream_task_log "a") register_routes
    ≡ (stream_task_log, params_of stream_task_log "a") ∷ []
routed-path_of_example = routed-path_of matched matched-IsMatcher stream_task_log "a" refl

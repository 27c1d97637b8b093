-- ===== src/Writers/Access/Harmless.antt =====
-- The check of the way to write has no use for an answer to a request that could write.
use mac_service_now_cmdb.Base.{String, ◌≡◌, refl, ap, ◌∙◌, fun_ext, ◌⊎◌, inl, inr, [], ◌∷◌}
use mac_service_now_cmdb.Errors.{◌>>=◌}
use mac_service_now_cmdb.Http.Response.{Response}
use mac_service_now_cmdb.Client.{Request, Send, query_request, request_json, query_table}
use mac_service_now_cmdb.Config.Snow.{ServiceNowConfig}
use mac_service_now_cmdb.Writers.Source.{
  choice_query, choice_rows, similar_discovery_sources, discovery_source_caveats,
}
use mac_service_now_cmdb.Writers.Simulation.{query_api, query_probe}
use mac_service_now_cmdb.Writers.Access.{
  probe_path, instance_probe, instance_answer, verify_cmdb_instance_access, verify_write_access,
}

-- A read, a simulation, or an insert into the class that cannot exist
abbrev pub IsHarmless : Request → Type 0
IsHarmless q = (q.method ≡ "GET") ⊎ (q.path ≡ query_api) ⊎ (q.path ≡ probe_path)

module _ (s t : Send) (same : (q : Request) → IsHarmless q → s q ≡ t q)
    (cfg : ServiceNowConfig) where
  same_choices : (source : String) → choice_rows s source ≡ choice_rows t source
  unfolding query_table request_json
  same_choices source =
      rw
        (same (query_request "sys_choice" (choice_query source) ("value" ∷ "inactive" ∷ []) 100)
          (inl refl))
        refl

  same_caveats :
      (source : String) → discovery_source_caveats s source ≡ discovery_source_caveats t source
  unfolding discovery_source_caveats similar_discovery_sources
  same_caveats source = rw (same_choices source) refl

  same_answer : (r : Response) → instance_answer s cfg r ≡ instance_answer t cfg r
  unfolding instance_answer
  same_answer r = rw (same_caveats cfg.discovery_source) refl

  same_instance : verify_cmdb_instance_access s cfg ≡ verify_cmdb_instance_access t cfg
  unfolding verify_cmdb_instance_access
  same_instance =
      ap (λ o. o >>= instance_answer s cfg) (same instance_probe (inr (inr refl)))
      ∙ ap (λ f. t instance_probe >>= f) (fun_ext same_answer)

  -- If two servers answer alike every request that reads, simulates, or names the class that cannot
  -- exist, then `verify_write_access` finds the same with both: it depends on no request that could
  -- write.
  pub verify_write_access-IsHarmless : verify_write_access s cfg ≡ verify_write_access t cfg
  unfolding verify_write_access query_probe
  verify_write_access-IsHarmless = rw (same_instance, same (query_probe cfg) (inr (inl refl))) refl

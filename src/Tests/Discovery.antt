-- ===== src/Tests/Discovery.antt =====
-- Two calls of `getOIDCConfig` that both find nothing, and both fetch.
use mcp_authkit_go.Base.{String, [], refl}
use mcp_authkit_go.Base.Dict.{Dict, lookup, insert}
use mcp_authkit_go.Base.Int.{ℤ}
use mcp_authkit_go.Base.Action.{ok}
use mcp_authkit_go.JwtValidator.{fetch_config, read_config}
use mcp_authkit_go.JwtValidator.Concurrent.{
  missed, fetched, returned, Calls, place, miss, fetch, remember, Steps, here, next, AllServed,
  Served, Known, start,
}
use mcp_authkit_go.JwtValidator.Complete.{Passes}
use mcp_authkit_go.Value.{Value}
use mcp_authkit_go.JwtValidator.Concurrent.Provenance.{documents-Served}
use mcp_authkit_go.Tests.Access.{network, issuer, jwx, fresh}
use mcp_authkit_go.Tests.Toys.{toy_library}
use mcp_authkit_go.Tests.World.{World, start_world}

abbrev idp : String
idp = "https://idp"

abbrev begun : Calls World
begun = start network jwx toy_library start_world

abbrev both_missed : Calls World
both_missed = record begun { calls = place (place begun.calls 0 (missed idp)) 1 (missed idp) }

abbrev both_fetched : Calls World
both_fetched = record both_missed {
  calls = place (place both_missed.calls 0 (fetched idp issuer)) 1 (fetched idp issuer);
}

abbrev both_returned : Calls World
both_returned = record {
  validator = record fresh { oidc_configs = insert idp issuer (insert idp issuer []) };
  calls =
      place (place both_fetched.calls 0 (returned idp (ok issuer))) 1 (returned idp (ok issuer));
}

fetching : Steps network jwx toy_library begun both_fetched
unfolding lookup fetch_config read_config
fetching =
    next
      (next (next (next here (miss 0 idp refl refl refl)) (miss 1 idp refl refl refl))
        (fetch 0 idp issuer refl refl refl))
      (fetch 1 idp issuer refl refl refl)

returning : Steps network jwx toy_library both_fetched both_returned
returning = next (next here (remember 0 idp issuer refl refl)) (remember 1 idp issuer refl refl)

documents-Served_example :
    AllServed network jwx toy_library both_fetched
    × ((url : String)
        → Known network jwx toy_library url both_fetched
        → Known network jwx toy_library url both_returned)
    × ((token url : String) (claims : Dict (Value ℤ))
          (p : Passes network jwx toy_library token url both_fetched.validator claims)
        → Served network jwx toy_library url p.asked.cfg)
documents-Served_example =
    documents-Served network jwx toy_library start_world both_fetched both_returned fetching
      returning

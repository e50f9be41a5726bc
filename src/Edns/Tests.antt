-- ===== src/Edns/Tests.antt =====
-- Options on concrete input.
use shadow_dns.Prelude.{◌≡◌, refl, [], ◌∷◌, some, arith}
use shadow_dns.Net.{v4, unmap}
use shadow_dns.Edns.Ecs.{classify_ecs, build_query_ecs, masked_addr, subnet_of}
use shadow_dns.Edns.Ecs.Classes.{class_of, classify_ecs-build_query_ecs}

-- 192.0.2.77/24
classify_ecs-build_query_ecs_example :
    classify_ecs (
      some (record {
        family = 1;
        source_netmask = 24;
        source_scope = 0;
        address = 192 ∷ 0 ∷ 2 ∷ 0 ∷ [];
      }))
    ≡ class_of (masked_addr (v4 0xc000024d) 24) 24
unfolding build_query_ecs masked_addr unmap subnet_of
classify_ecs-build_query_ecs_example =
    classify_ecs-build_query_ecs (v4 0xc000024d) 24 (omega arith) refl refl

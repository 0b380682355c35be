-- ===== src/Json/Laws.antt =====
-- Reading a dictionary back after a write.
use feishu_shadow_agent.Prelude.{
  String, ◌≡◌, refl, some, arith, eq_iff, ◌==◌, if◌then◌else◌, string_eq,
}
use feishu_shadow_agent.Json.{Json, Fields, end, field, get, put}

pub get-put :
    (k j : String) (v : Json) (d : Fields)
    → get j (put k v d) ≡ (if k == j then some v else get j d)
unfolding get put
get-put k j v end = refl
get-put k j v (field i w d) = ground (arith, eq_iff k j, eq_iff i k, eq_iff i j, get-put k j v d)

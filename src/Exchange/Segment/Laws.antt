-- ===== src/Exchange/Segment/Laws.antt =====
-- What an accepted segment, identity or artifact path looks like.
use closed_loop_bench.Base.{String, ◌≡◌, arith}
use closed_loop_bench.Base.Outcome.{ok, >>=-eq-ok, guard-bind}
use closed_loop_bench.Json.{null, obj, get, at, is_text}
use closed_loop_bench.Exchange.Platform.{Platform, Document}
use closed_loop_bench.Exchange.Segment.{protocol_version, is_safe, safe_segment, identity}

module _ (P : Platform) where
  null_refused : (label : String) {s : String} → safe_segment P null label ≡ ok s → ⊥
  unfolding safe_segment is_safe
  null_refused label h = cc

  -- A key whose `get` is not None is there.
  at_of_get :
      (k : String) (m : Document P) {v : Document P}
      → get k m ≡ ok v
      → (v ≡ null → ⊥)
      → at k m ≡ ok v
  at_of_get k (obj fs) h n = ground arith
  at_of_get k m h n = cc

  named :
      (k label : String) (m v : Document P) {s : String}
      → get k m ≡ ok v
      → safe_segment P v label ≡ ok s
      → at k m ≡ ok v
  named k label m v h safe = at_of_get k m h (λ e. null_refused label (rw e at safe))

  -- A message with an identity has its two keys.
  pub record IsNamed (m : Document P) (names : String × String) : Type 0 where
    pub type_value : Document P
    pub id_value : Document P
    pub type_at : at "message_type" m ≡ ok type_value
    pub id_at : at "message_id" m ≡ ok id_value
    pub type_safe : safe_segment P type_value "message type" ≡ ok names.0
    pub id_safe : safe_segment P id_value "message id" ≡ ok names.1

  pub identity-IsNamed :
      (m : Document P) (names : String × String) → identity P m ≡ ok names → IsNamed m names
  unfolding identity
  identity-IsNamed m names h =
      let (version, got_version, h1) = >>=-eq-ok (get "protocol_version" m) _ h in
      let (same, h2) = guard-bind (is_text version protocol_version) _ _ h1 in
      let (type, got_type, h3) = >>=-eq-ok (get "message_type" m) _ h2 in
      let (t, safe_type, h4) = >>=-eq-ok (safe_segment P type "message type") _ h3 in
      let (id, got_id, h5) = >>=-eq-ok (get "message_id" m) _ h4 in
      let (i, safe_id, h6) = >>=-eq-ok (safe_segment P id "message id") _ h5 in
      record {
        type_value = type;
        id_value = id;
        type_at = named "message_type" "message type" m type got_type safe_type;
        id_at = named "message_id" "message id" m id got_id safe_id;
        type_safe = ground arith;
        id_safe = ground arith;
      }

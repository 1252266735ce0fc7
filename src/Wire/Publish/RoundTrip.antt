-- ===== src/Wire/Publish/RoundTrip.antt =====
-- `Append` and `parse` of the publish messages together.
use moqtransport_fec.Base.{
  ℕ, ◌≤◌, ◌≡◌, refl, ap, ◌∙◌, List, [], ◌∷◌, ◌++◌, le→ltb, lt→ltb, ok, err, panic,
  invalid_forward_flag, append_assoc, ◌>>=◌,
}
use moqtransport_fec.Wire.Env.{Env, encode, take_varint-encode}
use moqtransport_fec.Wire.Fields.RoundTrip.{
  parse_var_int_bytes_lem, parse_tuple_lem, tuple, var_int_bytes,
}
use moqtransport_fec.Wire.Params.RoundTrip.{parameters}
use moqtransport_fec.Wire.Filter.{no_location}
use moqtransport_fec.Wire.Rules.{field_laws}
use moqtransport_fec.Wire.Publish.{
  PublishMessage, IsPublishMessage, append_publish, parse_publish, parse_largest, parse_forward,
  PublishErrorMessage, IsPublishErrorMessage, append_publish_error, parse_publish_error,
}

module _ (env : Env) where
  pub parse_publish_error-append :
      (m : PublishErrorMessage) (rest : List ℕ)
      → IsPublishErrorMessage m
      → parse_publish_error env (append_publish_error env [] m ++ rest) ≡ ok m
  unfolding append_publish_error parse_publish_error
  parse_publish_error-append m rest w = simp field_laws (
      rw (
        take_varint-encode env _ _ w.request_id,
        take_varint-encode env _ _ w.error_code,
        parse_var_int_bytes_lem env _ _ w.reason_phrase,
      ))

  -- What a PUBLISH begins with, as far as the location.
  unfoldable pub publish_head : PublishMessage → List ℕ
  publish_head m =
      encode env m.request_id
      ++ (tuple env m.track_namespace
          ++ (var_int_bytes env m.track_name
              ++ (encode env m.track_alias ++ (m.group_order ∷ m.content_exists ∷ []))))

  append_publish_lem :
      (m : PublishMessage)
      → m.content_exists ≡ 0
      → append_publish env [] m ≡ publish_head m ++ (m.forward ∷ parameters env m.parameters)
  unfolding append_publish publish_head
  append_publish_lem m h = rw h (simp field_laws)

  parse_publish_head :
      (m : PublishMessage) (rest : List ℕ)
      → m.content_exists ≡ 0
      → IsPublishMessage env m
      → parse_publish env (publish_head m ++ rest) ≡ (
          parse_forward env rest >>= λ (forward, pp). ok (record m {
            content_exists = 0;
            largest_location = no_location;
            forward = forward;
            parameters = pp;
          }))
  unfolding parse_publish parse_largest publish_head
  parse_publish_head m rest h w =
      simp (h, append_assoc)
        (rw (
          take_varint-encode env _ _ w.request_id,
          parse_tuple_lem env _ _ w.track_namespace,
          parse_var_int_bytes_lem env _ _ w.track_name,
          take_varint-encode env _ _ w.track_alias,
          le→ltb 2 _ w.group_order,
        ))

  -- A PUBLISH that ends behind its forward flag makes the parser panic.
  pub parse_publish_cut :
      (m : PublishMessage)
      → m.content_exists ≡ 0
      → IsPublishMessage env m
      → parse_publish env (publish_head m ++ (m.forward ∷ [])) ≡ panic
  parse_publish_cut m h w = parse_publish_head m (m.forward ∷ []) h w ∙ unfold parse_forward in refl

  -- A PUBLISH is read with the first byte of the number of its parameters as its forward flag, and
  -- with the flag as the start of its parameters.
  pub parse_publish-append :
      (m : PublishMessage) (b : ℕ) (bs : List ℕ)
      → m.content_exists ≡ 0
      → IsPublishMessage env m
      → parameters env m.parameters ≡ b ∷ bs
      → 2 ≤ b
      → parse_publish env (append_publish env [] m) ≡ err invalid_forward_flag
  unfolding parse_forward
  parse_publish-append m b bs h w e large =
      ap (parse_publish env) (append_publish_lem m h)
      ∙ (parse_publish_head m _ h w ∙ rw (e, lt→ltb 1 b large) refl)

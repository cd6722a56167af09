-- ===== src/Processor/Handle/ServePost.antt =====
-- What a processor does with the text of a POST request.
use highload_cup.Common.{
  arith, ℕ, ◌^◌, ◌<◌, ◌≡◌, ◌≢◌, refl, ap, ◌∙◌, List, [], ◌∷◌, ◌++◌, some, Bytes, codes, length,
  bytes_eq, All, All-append, ok, true, false, ==_false, if◌then◌else◌,
}
use highload_cup.Util.Numbers.{itoa, format_uint32}
use highload_cup.Util.Numbers.Decimal.{IsDigit}
use highload_cup.Http.Method.{post, is_get, is_post}
use highload_cup.Http.Request.{Proto, parsed, parse, body}
use highload_cup.Http.Request.Steps.{IsPathByte, IsLineByte}
use highload_cup.Http.Request.Header.{IsLine}
use highload_cup.Http.Request.Post.{post_text, post_head, parse_post, body_post, IsText}
use highload_cup.Store.HashMap.{HashMap}
use highload_cup.Store.Libs.{Libs, done, ◌>>=◌}
use highload_cup.Store.State.{Base}
use highload_cup.Store.Insert.{insert}
use highload_cup.Store.Update.{update}
use highload_cup.Processor.Answers.{bad_request, empty_object}
use highload_cup.Processor.Routes.{Route, route}
use highload_cup.Processor.Routes.Paths.{IsNameByte, object_path, route-object_path}
use highload_cup.Processor.Handle.{
  handle_insert, handle_update, handle_post, handle, serve, update_reply,
}
use highload_cup.Processor.Handle.Serve.{is_name_sound, id_in_path, reads, digits}

served_handle :
    {d : HashMap} (libs : Libs) (b : Base d) (req req' : Proto) (buffer buffer' : Bytes) (size : ℕ)
    → parse req buffer size ≡ parsed true req' buffer'
    → serve libs b req buffer size ≡ handle libs b req' (body req' buffer')
unfolding serve
served_handle libs b req req' buffer buffer' size e = rw (serve, e) refl

handled_post :
    {d : HashMap} (libs : Libs) (b : Base d) (req : Proto) (json : Bytes) (r : Route)
    → route req.path ≡ some r
    → is_get req.method ≡ false
    → is_post req.method ≡ true
    → handle libs b req json ≡ handle_post libs b r json
unfolding handle
handled_post libs b req json r f g k = rw (handle, f, g, k) refl

digits_not_new : (id : Bytes) → All IsDigit id → bytes_eq id (codes "new") ≡ false
digits_not_new [] h = refl
digits_not_new (c ∷ id) (hc, h) = rw (==_false c b'n' (omega arith)) refl

-- A body that is there goes to `insert` under the id `new`, and to `update` under another id.
posted_new :
    {d : HashMap} (libs : Libs) (b : Base d) (entity rest : Bytes) (c : ℕ)
    → c ≢ 0
    → handle_post libs b (record { entity = entity; id = codes "new"; func = [] }) (c ∷ rest)
      ≡ handle_insert libs b entity (c ∷ rest)
unfolding handle_post
posted_new libs b entity rest c h = rw (==_false c 0 h) refl

posted_id :
    {d : HashMap} (libs : Libs) (b : Base d) (entity id rest : Bytes) (c n : ℕ)
    → c ≢ 0
    → bytes_eq id (codes "new") ≡ false
    → format_uint32 id ≡ ok n
    → handle_post libs b (record { entity = entity; id = id; func = [] }) (c ∷ rest)
      ≡ update libs b n entity (c ∷ rest) >>= λ (b', status). done (b', update_reply status)
unfolding handle_post handle_update
posted_id libs b entity id rest c n h other e = rw (==_false c 0 h, other, handle_update, e) refl

-- A POST request, with the pieces that its text has.
module _ {d : HashMap} (libs : Libs) (b : Base d) (req : Proto) (entity version : Bytes)
    (lines : List Bytes) (c : ℕ) (rest old : Bytes) (o : ℕ) (ep : All IsPathByte entity)
    (en : All IsNameByte entity) (vne : version ≢ []) (hv : All IsLineByte version)
    (hl : All IsLine lines) (hc : IsLineByte c) (ht : IsText (c ∷ rest)) where
  served :
      (id : Bytes)
      → All IsPathByte id
      → All IsNameByte id
      → serve libs b req
          (post_text (object_path entity id) version lines (c ∷ rest) ++ o ∷ old)
          (length (post_text (object_path entity id) version lines (c ∷ rest)))
        ≡ handle_post libs b (record { entity = entity; id = id; func = [] }) (c ∷ rest)
  served id ip iq =
      let in_path : All IsPathByte (object_path entity id) = (
        (ground arith, ground arith),
        All-append IsPathByte entity _ ep ((ground arith, ground arith), ip),
      ) in
      let path = object_path entity id in
      let req' : Proto = record {
        params = [];
        method = post;
        path = path;
        body_at = length (post_head path version lines);
      } in
      served_handle libs b req req' _ _ _
        (parse_post req path version lines c rest old o (λ e. cc) in_path vne hv hl hc)
      ∙ ap (λ json. handle libs b req' json)
          (body_post req' path version (c ∷ rest) old lines refl ht)
      ∙ handled_post libs b req' (c ∷ rest) (record { entity = entity; id = id; func = [] })
          (route-object_path entity en id iq) refl refl

  -- A POST request for `/entity/new`, in a longer buffer, is answered with what `insert` makes of its
  -- body for that entity: the empty object if it is inserted, 400 if not, and the base that `insert`
  -- leaves. The entity is any text with no space, `?` or slash; a version in one line follows, then
  -- header lines that are not empty and do not begin with a colon, an empty line, and a body that is
  -- not empty, holds no zero, and does not begin with a line end.
  pub serve_insert :
      serve libs b req
        (post_text (object_path entity (codes "new")) version lines (c ∷ rest) ++ o ∷ old)
        (length (post_text (object_path entity (codes "new")) version lines (c ∷ rest)))
      ≡ (insert libs b entity (c ∷ rest) >>= λ (b', inserted).
          done (b', if inserted then empty_object else bad_request))
  unfolding handle_insert
  serve_insert =
      let (new_path, new_name) = is_name_sound (codes "new") refl in
      served (codes "new") new_path new_name ∙ posted_new libs b entity rest c ht.0

  -- The same for `/entity/id`, where `id` is what `itoa` prints of a 32-bit number: the answer is that
  -- to the status which `update` returns for that entity, that number and the body, and the base is
  -- the one that `update` leaves.
  pub serve_change :
      (n : ℕ) (id : Bytes)
      → n < 2 ^ 32
      → itoa n 10 ≡ ok id
      → serve libs b req
          (post_text (object_path entity id) version lines (c ∷ rest) ++ o ∷ old)
          (length (post_text (object_path entity id) version lines (c ∷ rest)))
        ≡ (update libs b n entity (c ∷ rest) >>= λ (b', status). done (b', update_reply status))
  serve_change n id fits prints =
      let (ip, iq) = id_in_path n id fits prints id (digits n id fits prints) in
      served id ip iq
      ∙ posted_id libs b entity id rest c n ht.0 (digits_not_new id (digits n id fits prints))
          (reads n id fits prints)

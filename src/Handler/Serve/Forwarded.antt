-- ===== src/Handler/Serve/Forwarded.antt =====
-- pkg/handler/handler.go and pkg/handler/serve.go with pkg/storage/pusher.go: a client that pulls an
-- image which the storage registry does not have yet.
use jitdi.Base.{
  ℕ, ◌≡◌, refl, ap, sym, ◌∙◌, length, inl, inr, Bool, true, some, ◌∷◌, ◌++◌, Bytes, codes, Lacks,
  bytes_eq,
}
use jitdi.Exec.{Exec, Error, ok, err, nothing, pure, lift, try, attempt, ◌>>=◌}
use jitdi.Exec.Outcome.{bind_ok}
use jitdi.Container.{Image, Reference, Described, RemotePuller}
use jitdi.Pattern.Rule.{Action}
use jitdi.Storage.Layers.{has_tag}
use jitdi.Handler.Rules.{get_image_rules}
use jitdi.Handler.Select.{find_action}
use jitdi.Handler.Select.Sorting.{Sorter}
use jitdi.Handler.Route.Laws.{resource_path, IsRead, route-resource_path}
use jitdi.Handler.Reply.{Reply, Body, empty, written}
use jitdi.Handler.Build.{World, Services, Cache, on_handler, get_puller, build}
use jitdi.Handler.Serve.{
  Decoders, finish, or_internal, answer_internal, pulled, forward_manifest, local_manifests, chosen,
  by_tag, manifests_of, respond, serve_http,
}
use jitdi.Handler.Serve.Reads.{serve, has_tag-has_prefix}
use jitdi.Handler.Serve.Stored.{stored_name, Registered, Tells, build_stored}

-- What is written for `GET`; for `HEAD`, nothing.
abbrev pub body_of : {method : Bytes} → IsRead method → Bytes → Body
body_of (inl get) manifest = written manifest
body_of (inr head) manifest = empty

module _ {R : Type 0} (services : Services R) (cache : Cache) (c : ℕ) (rest : Bytes) where
  open services use {parse_reference}

  module _ (decoders : Decoders) (sorter : Sorter) where
    serve_forward :
        (method image tag : Bytes) (action : Action) (w : World R)
        → IsRead method
        → Lacks b'/' tag
        → has_tag image tag ≡ true
        → w.handler.storage_registry ≡ c ∷ rest
        → find_action (get_image_rules sorter w.handler).1 (image ++ (codes ":" ++ tag))
          ≡ some action
        → serve decoders services cache sorter method
            (resource_path image (codes "manifests") tag)
            w
          ≡ forward_manifest decoders services cache
              (c ∷ rest)
              (bytes_eq method (codes "HEAD"))
              action
              (record w { handler = (get_image_rules sorter w.handler).0 })
    unfolding serve_http respond manifests_of by_tag chosen on_handler local_manifests
    serve_forward method image tag action w r l t stored rule =
        simp
          (
            (route-resource_path method image tag r l).0,
            has_tag-has_prefix image tag t,
            stored,
            rule,
          )
          refl

    pulled_built :
        (is_head : Bool) (action : Action) (puller : RemotePuller (World R)) (missing : Error)
        (ref : Reference) (w1 w2 w3 : World R)
        → puller.get ref w1 ≡ (err missing, w2)
        → build services cache action w2 ≡ (ok nothing, w3)
        → try
            (puller.get ref)
            (pulled decoders services cache (c ∷ rest) is_head (puller.get ref) action)
            w1
          ≡ puller.get ref w3
    unfolding pulled
    pulled_built is_head action puller missing ref w1 w2 w3 e2 e3 =
        ap (attempt (pulled decoders services cache (c ∷ rest) is_head (puller.get ref) action)) e2
        ∙ bind_ok (build services cache action) (λ _. puller.get ref) {s = w2} e3

    forward_manifest_built :
        (is_head : Bool) (action : Action) (ref : Reference) (puller : RemotePuller (World R))
        (missing : Error) (desc : Described) (m : Bytes) (w w1 w2 w3 w4 : World R)
        → parse_reference (stored_name services cache c rest action) ≡ ok ref
        → get_puller services cache ref w ≡ (ok puller, w1)
        → puller.get ref w1 ≡ (err missing, w2)
        → build services cache action w2 ≡ (ok nothing, w3)
        → puller.get ref w3 ≡ (ok desc, w4)
        → desc.manifest ≡ ok m
        → forward_manifest decoders services cache (c ∷ rest) is_head action w
          ≡ (ok (finish decoders is_head desc.media_type desc.size (ok m)), w4)
    unfolding forward_manifest or_internal answer_internal
    forward_manifest_built is_head action ref puller missing desc m w w1 w2 w3 w4 to e1 e2 e3 e4
          e5 =
        let k4 : Described → Bytes → Exec (World R) Reply =
          λ desc m. pure (finish decoders is_head desc.media_type desc.size (ok m)) in
        let k3 : Described → Exec (World R) Reply = λ desc. lift desc.manifest >>= k4 desc in
        let k2 : Reference → RemotePuller (World R) → Exec (World R) Reply = λ ref puller.
          try (puller.get ref)
            (pulled decoders services cache (c ∷ rest) is_head (puller.get ref) action)
          >>= k3 in
        ap (attempt (answer_internal decoders)) (
          bind_ok (lift (parse_reference (stored_name services cache c rest action)))
            (λ ref. get_puller services cache ref >>= k2 ref) (ap (λ r. (r, w)) to)
          ∙ bind_ok (get_puller services cache ref) (k2 ref) {s = w} e1
          ∙ bind_ok
              (try (puller.get ref)
                (pulled decoders services cache (c ∷ rest) is_head (puller.get ref) action))
              k3 (pulled_built is_head action puller missing ref w1 w2 w3 e2 e3 ∙ e4)
          ∙ bind_ok (lift desc.manifest) (k4 desc) (ap (λ r. (r, w4)) e5))

    finish-body_of :
        (method media_type manifest : Bytes) (size : ℕ) (r : IsRead method)
        → finish decoders (bytes_eq method (codes "HEAD")) media_type size (ok manifest) ≡ record {
          content_type = some media_type;
          content_length = some size;
          body = body_of r manifest;
        }
    unfolding finish bytes_eq
    finish-body_of method media_type manifest size (inl e) = rw e refl
    finish-body_of method media_type manifest size (inr e) = rw e refl

    -- With a storage registry: a client asks for a tag by GET or HEAD of `/v2/IMAGE/manifests/TAG`;
    -- the first rule that matches gives an action about a single image; asking the storage registry
    -- for it fails, and its base can be fetched, mutated and, layer by layer and then as a whole,
    -- pushed there; that registry tells of an image what was pushed. Then the answer has the media
    -- type and the length of the new image's manifest, and for GET that manifest, byte for byte, for
    -- HEAD no body; what is left is the state behind asking the registry again.
    pub serve_http_forward :
        (method image tag manifest media_type : Bytes) (action : Action) (ref : Reference)
        (new : Image) (puller : RemotePuller (World R)) (missing : Error) (w w1 w2 w3 : World R)
        (r : IsRead method)
        → Lacks b'/' tag
        → has_tag image tag ≡ true
        → w.handler.storage_registry ≡ c ∷ rest
        → find_action (get_image_rules sorter w.handler).1 (image ++ (codes ":" ++ tag))
          ≡ some action
        → parse_reference (stored_name services cache c rest action) ≡ ok ref
        → get_puller services cache ref
            (record w { handler = (get_image_rules sorter w.handler).0 })
          ≡ (ok puller, w1)
        → puller.get ref w1 ≡ (err missing, w2)
        → (registered : Registered services cache c rest action ref w2 new w3)
        → Tells services cache c rest puller registered.pusher ref
        → new.raw_manifest ≡ ok manifest
        → new.media_type ≡ ok media_type
        → serve decoders services cache sorter method
            (resource_path image (codes "manifests") tag)
            w
          ≡ (
            ok (record {
              content_type = some media_type;
              content_length = some (length manifest);
              body = body_of r manifest;
            }),
            (puller.get ref w3).1,
          )
    serve_http_forward method image tag manifest media_type action ref new puller missing w w1 w2 w3
          r l t stored rule to connected absent registered tells eq_manifest eq_type =
        let (desc, w4, got, told, typed, sized) =
          tells new registered.w5 w3 manifest media_type registered.pushed eq_manifest eq_type in
        let answer : Bytes → ℕ → Reply = λ media_type size. record {
          content_type = some media_type;
          content_length = some size;
          body = body_of r manifest;
        } in
        serve_forward method image tag action w r l t stored rule
        ∙ forward_manifest_built (bytes_eq method (codes "HEAD")) action ref puller missing desc
            manifest (record w { handler = (get_image_rules sorter w.handler).0 }) w1 w2 w3 w4 to
            connected absent (build_stored services cache c rest action ref w2 new w3 to registered)
            got told
        ∙ ap (λ reply. (ok reply, w4))
            (finish-body_of method desc.media_type manifest desc.size r
              ∙ ap (λ media_type. answer media_type desc.size) typed
              ∙ ap (λ size. answer media_type size) sized)
        ∙ ap (λ (w : World R). (ok (answer media_type (length manifest)), w))
            (sym (ap (λ a. a.1) got))

-- ===== src/Agent/Protocol.antt =====
-- What a client learns from the server, request by request.
use reptile.Prelude.{◌≡◌, refl, not, some, inl, inr, if◌then◌else◌}
use reptile.Text.Defs.{Text, codes, eq}
use reptile.Library.{Library}
use reptile.Result.{Result, ok, err, Result-cases}
use reptile.Reload.{ReloadResult}
use reptile.Agent.{
  Status, Response, Wire, snapshot, Hooks, reloaded, Handled, on_probe, answer_reload, on_reload,
  on_command, handle, query_response, status_of, query,
}

-- The encoding of a message is decoded to the message.
pub record Carries (wire : Wire) (cmd : Text) (r : Response) : Type 0 where
  pub request : wire.decode_request (wire.encode_request cmd) ≡ ok cmd
  pub response : wire.decode_response (wire.encode_response r) ≡ ok r

module _ {W : Type 0} (lib : Library) (wire : Wire) (hooks : Hooks W) (w : W) where
  -- A connection to the server at the state `w`.
  abbrev pub connected : Text → Result Text Text
  connected bytes = ok (wire.encode_response (handle lib wire hooks bytes w).response)

  -- What the server makes of the command.
  abbrev pub served : Text → Handled W
  served cmd = on_command lib wire hooks cmd w

  handle-decoded :
      (cmd bytes : Text)
      → wire.decode_request bytes ≡ ok cmd
      → handle lib wire hooks bytes w ≡ served cmd
  unfolding handle
  handle-decoded cmd bytes e = rw (e, handle)

  pub query_response-served :
      (cmd : Text)
      → Carries wire cmd (served cmd).response
      → query_response wire connected cmd ≡ (
          if not (served cmd).response.success
          then err (served cmd).response.error
          else ok (served cmd).response)
  unfolding query_response
  query_response-served cmd c =
      rw (handle-decoded cmd (wire.encode_request cmd) c.request, c.response)

  -- Where JSON carries the messages: "status" brings the snapshot of the store and changes nothing.
  pub query-status :
      Carries wire (codes "status") (served (codes "status")).response
      → (query wire connected (codes "status") ≡ ok (snapshot wire (hooks.store w)))
        × ((served (codes "status")).world ≡ w)
  unfolding query status_of on_command eq
  query-status c = (rw (query_response-served (codes "status") c), refl)

  -- "probe" brings the status that the prober returns.
  pub query-probe :
      (probe : W → Status × W)
      → hooks.prober ≡ some probe
      → Carries wire (codes "probe") (served (codes "probe")).response
      → (query wire connected (codes "probe") ≡ ok (probe w).0)
        × ((served (codes "probe")).world ≡ (probe w).1)
  unfolding query status_of on_command on_probe eq
  query-probe probe h c =
      (rw (query_response-served (codes "probe") c, h, on_probe), rw (h, on_probe))

  -- Where JSON carries the messages: "reload" brings the reloader's error, or the classes of the
  -- keys that changed with the snapshot of the store after the reload.
  pub query_response-reload :
      (reload : W → Result Text ReloadResult × W)
      → hooks.reloader ≡ some reload
      → Carries wire (codes "reload") (served (codes "reload")).response
      → query_response wire connected (codes "reload") ≡ (elim (reload w).0 [
        | err e ↦ err e
        | ok r ↦ ok (reloaded (snapshot wire (hooks.store (reload w).1)) r)
      ])
  unfolding on_command on_reload answer_reload eq
  query_response-reload reload h c = elim (Result-cases (reload w).0) [
    | inl (e, bad) ↦ rw (query_response-served (codes "reload") c, h, on_reload, bad, answer_reload)
    | inr (r, good) ↦
        rw (query_response-served (codes "reload") c, h, on_reload, good, answer_reload)
  ]

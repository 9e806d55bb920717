-- ===== src/Create/Served/Everywhere.antt =====
-- CreateVolume of pkg/driver/controller.go, with the clones of it and of controller_snapshot_clone.go.
use nasty_csi.Common.{ℕ, ◌≡◌, String, some}
use nasty_csi.Common.Props.{get}
use nasty_csi.Common.Act.{Act}
use nasty_csi.Common.Returns.{Returns}
use nasty_csi.Names.{Libraries}
use nasty_csi.Volume.{protocol_nfs}
use nasty_csi.Api.{Client}
use nasty_csi.Identity.{Fresh}
use nasty_csi.Create.{Provider, Source, VolumeRequest, CreateResponse, or_default}
use nasty_csi.Create.Request.{create_volume_by_protocol}
use nasty_csi.Create.Served.{IsServed}

-- The response is served under the protocol of the request, unless the request names a source; then
-- under the protocol of the source.
pub data Serves (C : Client) (req : VolumeRequest) (response : CreateResponse) : Type 0 where
  as_asked :
      IsServed C req.create.name
        (or_default protocol_nfs (get "protocol" req.create.parameters))
        response
      → Serves C req response
  from_source :
      (source : Source) (protocol : String)
      → response.content_source ≡ some source
      → req.source ≡ some source
      → IsServed C req.create.name protocol response
      → Serves C req response

-- What a clone returns.
IsClone : Client → String → Source → CreateResponse → Type 0
IsClone C request source response =
    (response.content_source ≡ some source)
    × (protocol : String) × IsServed C request protocol response

module _ (C : Client) (P : Provider C) (L : Libraries) where
  open C use {Server, get_subvolume, clone_subvolume}

  module _ (uuids : ℕ → Fresh) (later_uuids : ℕ → Fresh) (req : VolumeRequest) where
    abbrev create : VolumeRequest → String → Act Server CreateResponse
    create = create_volume_by_protocol C P L later_uuids

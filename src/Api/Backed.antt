-- ===== src/Api/Backed.antt =====
-- What the driver knows of a subvolume from the server's answers.
use nasty_csi.Common.{◌≡◌, String, Option, none, some, List, ◌∷◌}
use nasty_csi.Common.Result.{ok}
use nasty_csi.Volume.{Subvolume}
use nasty_csi.Api.{Client, SubvolumeCreateParams}

pub data IsIn {A : Type 0} (a : A) : List A → Type 0 where
  first : {l : List A} → IsIn a (a ∷ l)
  further : {b : A} {l : List A} → IsIn a l → IsIn a (b ∷ l)

-- The subvolume, with these properties, is what the server answered to a query or to its creation,
-- or the server accepted a write of these properties to the subvolume of this name.
pub data IsBacked (C : Client) (s : Subvolume) : Type 0 where
  accepted :
      (st : C.Server)
      → (C.set_subvolume_properties s.filesystem s.name s.properties st).0 ≡ ok tt
      → IsBacked C s
  shown :
      (filesystem name : String) (st : C.Server)
      → (C.get_subvolume filesystem name st).0 ≡ ok (some s)
      → IsBacked C s
  found :
      (filesystem name : String) (st : C.Server)
      → (C.find_subvolume_by_csi_volume_name filesystem name st).0 ≡ ok (some s)
      → IsBacked C s
  listed :
      (key value filesystem : String) (subvolumes : List Subvolume) (st : C.Server)
      → (C.find_subvolumes_by_property key value filesystem st).0 ≡ ok subvolumes
      → IsIn s subvolumes
      → IsBacked C s
  made :
      (params : SubvolumeCreateParams) (st : C.Server)
      → (C.create_subvolume params st).0 ≡ ok s
      → IsBacked C s

unfoldable pub IsBackedIf : (C : Client) → Option Subvolume → Type 0
IsBackedIf C none = Unit
IsBackedIf C (some s) = IsBacked C s

-- ===== src/Volume/Key.antt =====
-- The names under which nasty-go stores a volume's properties, as docs/FEATURES.md, docs/ADOPTION.md
-- and the tests spell them.
use Prim.Native.String.{String}

abbrev pub managed_by : String
managed_by = "nasty-csi:managed_by"

abbrev pub csi_volume_name : String
csi_volume_name = "nasty-csi:csi_volume_name"

abbrev pub protocol : String
protocol = "nasty-csi:protocol"

abbrev pub capacity_bytes : String
capacity_bytes = "nasty-csi:capacity_bytes"

abbrev pub created_at : String
created_at = "nasty-csi:created_at"

abbrev pub delete_strategy : String
delete_strategy = "nasty-csi:delete_strategy"

abbrev pub pvc_name : String
pvc_name = "nasty-csi:pvc_name"

abbrev pub pvc_namespace : String
pvc_namespace = "nasty-csi:pvc_namespace"

abbrev pub storage_class : String
storage_class = "nasty-csi:storage_class"

abbrev pub adoptable : String
adoptable = "nasty-csi:adoptable"

abbrev pub cluster_id : String
cluster_id = "nasty-csi:cluster_id"

-- ===== src/Package/Info.antt =====
-- The fields of `api::types::v1::PackageInfoV2` that the modelled code reads. The type itself is
-- generated from api/schema/v1.yaml, and so are those of its fields. A `std::map` is a list of its
-- entries, in the order of the keys.
use linyaps.Prelude.{Option, List, Text}

pub record ExtensionDefine : Type 0 where
  pub name : Text
  pub version : Text
  pub allow_env : Option (List (Text × Text))

pub record ExtensionImpl : Type 0 where
  pub env : Option (List (Text × Text))

-- A bind of a host's directory or, among the inner ones, of one in the container's root.
pub record Bind : Type 0 where
  pub destination : Text
  pub source : Text

pub record Permissions : Type 0 where
  pub binds : Option (List Bind)
  pub inner_binds : Option (List Bind)

pub record PackageInfoV2 : Type 0 where
  pub id : Text
  pub channel : Text
  pub version : Text
  pub arch : List Text
  pub module_name : Text
  pub uuid : Option Text
  pub kind : Text
  pub base : Text
  pub runtime : Option Text
  pub extensions : Option (List ExtensionDefine)
  pub ext_impl : Option ExtensionImpl
  pub permissions : Option Permissions

-- ===== src/Runtime/Extension.antt =====
-- extension/extension.h and extension.cpp: which extensions are enabled on the host.
use linyaps.Prelude.{
  not, Option, none, some, [], ◌∷◌, ◌++◌, Text, codes, text_eq, is_empty, if◌then◌else◌, ◌==◌,
}

-- `ExtensionImplNVIDIADisplayDriver::Identify`
abbrev pub identify : Text
identify = codes "org.deepin.driver.display.nvidia"

-- `std::replace` of the dots.
unfoldable pub dashes : Text → Text
dashes [] = []
dashes (c ∷ cs) = (if c == b'.' then b'-' else c) ∷ dashes cs

-- The first word of /sys/module/nvidia/version, if the file opens.
unfoldable pub host_driver_enable : Option Text → Text
unfolding dashes
host_driver_enable none = []
host_driver_enable (some version) = dashes version

-- `shouldEnable` of the extension that `makeExtension` makes for the name: the name to look for, or
-- `none`. All but the driver are enabled, by `ExtensionImplDummy`.
unfoldable pub should_enable : Option Text → Text → Option Text
unfolding host_driver_enable
should_enable version name =
    if not (text_eq name identify)
    then some name
    else if not (is_empty (host_driver_enable version))
    then some (identify ++ (b'.' ∷ host_driver_enable version))
    else none

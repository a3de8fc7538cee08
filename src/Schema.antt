-- ===== src/Schema.antt =====
-- shared/schema/schema.go: the addresses of the bus.
use station_a.Base.{String, str_append}

-- `SlotBase`: site/station/slot.
unfoldable pub slot_base : String → String → String → String
slot_base site station slot =
    str_append site (str_append "/" (str_append station (str_append "/" slot)))

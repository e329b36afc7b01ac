-- ===== src/System.antt =====
-- riotmodule/rs.c and linuxconnector/rs_connector.c at the two ends of a serial line: what one side
-- sends is what the other handles.
pub mod Remote
pub mod Mirror
pub mod Registration
pub mod Histories
pub mod Web
pub mod Servers

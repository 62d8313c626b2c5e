-- ===== src/Cec.antt =====
-- hdmi/cec/HdmiCec.cpp: the HDMI-CEC service. `Service` is the code, `Delivery` the proofs.
pub mod Service
pub mod Delivery
mod Tests

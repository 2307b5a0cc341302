-- ===== src/Tests/Leds.antt =====
-- Examples for the status LED.
